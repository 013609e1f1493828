-- ===== src/Dispatcher/Retry.antt =====
-- compliance.go: the retry policy.
use lead.Prelude.{ℕ, ◌<◌, String, Option, none, some, arith, ℤ, if◌then◌else◌, ◌==◌, string_eq}
use lead.Dispatcher.Row.{Ctx, read_num}
use lead.Dispatcher.Window.{positive}

abbrev pub default_retry_max : ℕ
default_retry_max = 3

abbrev pub default_retry_busy_min : ℕ
default_retry_busy_min = 20

abbrev pub default_retry_no_answer_min : ℕ
default_retry_no_answer_min = 180

abbrev pub default_retry_failed_min : ℕ
default_retry_failed_min = 30

pub record RetryPolicy : Type 0 where
  pub retry_max : ℕ
  pub retry_busy_min : ℕ
  pub retry_no_answer_min : ℕ

abbrev pub or_default : Option ℕ → ℕ → ℕ
or_default none d = d
or_default (some n) d = n

unfoldable pub extract_retry_policy : Ctx → RetryPolicy
extract_retry_policy c = record {
  retry_max = or_default (positive (read_num "_retry_max" c)) default_retry_max;
  retry_busy_min = or_default (positive (read_num "_retry_busy_min" c)) default_retry_busy_min;
  retry_no_answer_min =
      or_default (positive (read_num "_retry_no_answer_min" c)) default_retry_no_answer_min;
}

-- The delay of a call status in minutes; `none` stands for the code's -1, no retry.
unfoldable pub retry_delay_minutes : String → RetryPolicy → Option ℕ
retry_delay_minutes status p =
    if status == "completed"
    then none
    else (if status == "busy"
        then some p.retry_busy_min
        else (if status == "no-answer"
            then some p.retry_no_answer_min
            else some default_retry_failed_min))

or_default_pos : (v : Option ℤ) (d : ℕ) → 0 < d → 0 < or_default (positive v) d
or_default_pos none d h = h
or_default_pos (some v) d h = ground arith

-- Every retry limit in force is at least 1, whatever the context holds.
pub extract_retry_policy-pos :
    (c : Ctx)
    → let p = extract_retry_policy c in
      (0 < p.retry_max) × (0 < p.retry_busy_min) × (0 < p.retry_no_answer_min)
unfolding extract_retry_policy
extract_retry_policy-pos c = (
  or_default_pos (read_num "_retry_max" c) 3 (omega arith),
  or_default_pos (read_num "_retry_busy_min" c) 20 (omega arith),
  or_default_pos (read_num "_retry_no_answer_min" c) 180 (omega arith),
)
