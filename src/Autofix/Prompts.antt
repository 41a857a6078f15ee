-- ===== src/Autofix/Prompts.antt =====
-- The prompts of a fix run: `_build_ci_fix_prompt` and `_build_review_feedback_prompt`.
use loupfeed_agents.Common.{
  String, List, [], ◌∷◌, map, join, ◌⧺◌, show_ℕ, nonempty, if◌then◌else◌, suc,
}
use loupfeed_agents.Json.{ℤ, pos, negsuc, Fields, get, text_or}

-- the pull request that a fix is for
pub record Target : Type 0 where
  pub owner : String
  pub repo : String
  pub token : String
  pub pr_number : ℤ
  pub pr_url : String
  pub base_sha : String
  pub branch : String
  pub head_sha : String

-- `str(n)`
unfoldable pub show_ℤ : ℤ → String
unfolding show_ℕ
show_ℤ (pos n) = show_ℕ n
show_ℤ (negsuc n) = "-" ⧺ show_ℕ (suc n)

-- the line of a failing check
check_line : Fields → String
unfolding text_or get
check_line check =
    let details = text_or (get "details_url" check) "" in
    "- "
    ⧺ (text_or (get "name" check) "check"
        ⧺ (" ("
            ⧺ (text_or (get "conclusion" check) "failure"
                ⧺ (")" ⧺ (if nonempty details then " — " ⧺ details else "")))))

unfoldable pub build_ci_fix_prompt : Target → List Fields → String
unfolding check_line show_ℤ
build_ci_fix_prompt p failing_checks = join "" (
    "An automated CI check failed on a pull request you opened. Please "
    ∷ "investigate and fix it.\n\n## Repository: "
    ∷ p.owner
    ∷ "/"
    ∷ p.repo
    ∷ "\n\n## Pull Request: "
    ∷ p.pr_url
    ∷ " (#"
    ∷ show_ℤ p.pr_number
    ∷ ")\n\n## Branch: "
    ∷ p.branch
    ∷ "\n\n## Head commit: "
    ∷ p.head_sha
    ∷ "\n\n## Failing checks:\n"
    ∷ join "\n" (map check_line failing_checks)
    ∷ "\n\nInstructions:\n1. Make sure you are on the PR branch, then read the failing logs "
    ∷ "(e.g. `GH_TOKEN=dummy gh pr checks` and `GH_TOKEN=dummy gh run view "
    ∷ "<run-id> --log-failed`).\n"
    ∷ "2. Confidence gating — fix autonomously ONLY when the cause is clear "
    ∷ "and deterministic (lint/format, type errors, missing imports, failed "
    ∷ "assertions, snapshot updates, build errors). Commit and push to the "
    ∷ "existing branch; do NOT open a new PR.\n"
    ∷ "3. If the failure is ambiguous, flaky, infrastructure-related, appears "
    ∷ "pre-existing, or needs an architectural/design decision, do NOT guess. "
    ∷ "Post a short PR comment explaining what you found and what input you "
    ∷ "need, then stop.\n"
    ∷ "4. Never force-push. Never weaken or delete test assertions just to go "
    ∷ "green unless the behavior change is intentional and correct.\n"
    ∷ "5. After you push, CI re-runs automatically — you don't need to merge."
    ∷ [])

unfoldable pub build_review_feedback_prompt :
    String → String → ℤ → String → String → String → String
unfolding show_ℤ
build_review_feedback_prompt owner repo pr_number pr_url reviewer body = join "" (
    "A reviewer left feedback on a pull request you opened. Please respond.\n\n"
    ∷ "## Repository: "
    ∷ owner
    ∷ "/"
    ∷ repo
    ∷ "\n\n## Pull Request: "
    ∷ pr_url
    ∷ " (#"
    ∷ show_ℤ pr_number
    ∷ ")\n\n## Reviewer: "
    ∷ reviewer
    ∷ "\n\n## Feedback:\n"
    ∷ body
    ∷ "\n\nInstructions:\n"
    ∷ "1. If the requested change is unambiguous (rename, typo, missing null "
    ∷ "check, small refactor, add a test), make it, commit, and push to the "
    ∷ "existing branch.\n2. If the comment is ambiguous, opinion-based, or needs a design "
    ∷ "decision, reply on the PR asking for clarification instead of guessing.\n"
    ∷ "3. Never force-push. Reply to the reviewer on GitHub to explain what you changed."
    ∷ [])
