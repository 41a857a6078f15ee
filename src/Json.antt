-- ===== src/Json.antt =====
-- The values that the Python code handles dynamically: JSON read from thread metadata, from GitHub
-- and from stored records, with the tests (`isinstance`, truth value, `.get`) that the code makes.
-- A dict keeps its insertion order, as Python's does; floats do not occur in the modelled fields.
mod Laws
pub use Laws.*
mod Values
pub use Values.{
  ℤ, pos, negsuc, Value, null, bool, int, str, list, dict, Items, nil, cons, Fields, end, field,
}
unfoldable pub use Values.{
  get, has, put, update, setdefault, truthy, num_of, is_int, same_num, as_str, as_dict, as_list,
  is_str, is_null, list_of, items_of, has_text, eq_text, eq_ℤ, text_or, in_texts, del,
}
