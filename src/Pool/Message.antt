-- ===== src/Pool/Message.antt =====
-- src/pool.rs: the text of a failure to acquire a connection.
use rapsqlite.Prelude.{
  ℕ, Bool, ◌||◌, ◌∷◌, ◌++◌, Option, none, some, Text, codes, is_some, if◌then◌else◌,
}
use rapsqlite.Settings.{digits}
use rapsqlite.Errors.Bytes.{find_text}

-- `contains`.
abbrev contains_text : Text → Text → Bool
contains_text t pattern = is_some (find_text t pattern)

-- `to_string` of a `usize` or a `u64`, which have at most 20 digits.
abbrev number_text : ℕ → Text
number_text n = digits 20 n

abbrev size_text : Option ℕ → Text
size_text none = codes "1 (default)"
size_text (some n) = number_text n

abbrev timeout_text : Option ℕ → Text
timeout_text none = codes "30s (default)"
timeout_text (some n) = number_text n ++ codes "s"

unfoldable pub is_timeout : Text → Bool
unfolding find_text
is_timeout error_text =
    contains_text error_text (codes "timeout") || contains_text error_text (codes "timed out")

unfoldable pub advice : Option ℕ → Option ℕ → Text
unfolding digits
advice pool_size timeout =
    10 ∷ 10 ∷ codes "Possible solutions:"
    ++ (10 ∷ codes "  - Increase pool_size (current: "
        ++ (size_text pool_size
            ++ (codes ")"
                ++ (10 ∷ codes "  - Increase connection_timeout (current: "
                    ++ (timeout_text timeout
                        ++ (codes ")"
                            ++ (10
                                  ∷ codes
                                      "  - Ensure connections are properly released (use async context managers)"
                                ++ 10
                                  ∷ codes
                                      "  - Check for long-running transactions that hold connections")))))))

-- The error of sqlx comes as its text.
unfoldable pub pool_acquisition_error : Text → Text → Option ℕ → Option ℕ → Text
unfolding is_timeout advice
pool_acquisition_error path error_text pool_size timeout =
    let message =
      codes "Failed to acquire connection from pool at " ++ (path ++ (codes ": " ++ error_text)) in
    if is_timeout error_text then message ++ advice pool_size timeout else message
