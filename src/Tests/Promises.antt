-- ===== src/Tests/Promises.antt =====
-- Instances of the theorems on promises, with numbers as values.
use http_web_framework.Prelude.{List, [], false, if◌then◌else◌, ℕ, ◌∷◌, ◌≡◌}
use http_web_framework.Throwing.{returned, threw, user_exception}
use http_web_framework.Promise.{Promise, new_promise, not_valid, set_exception, set_value, valid}
use http_web_framework.Promise.Validity.{Call, call_all, give, renew, retrieve, set_value-valid}

abbrev number_promise : Promise ℕ
number_promise = new_promise

abbrev some_calls : List (Call ℕ)
some_calls = retrieve ∷ give 7 ∷ renew ∷ []

set_value-valid_example :
    let p = call_all some_calls number_promise in
    ((set_value 8 p).0 ≡ (if valid p then returned tt else threw not_valid))
    × ((set_exception (user_exception 1) p).0 ≡ (if valid p then returned tt else threw not_valid))
    × (valid (set_value 8 p).1 ≡ false)
    × (valid (set_exception (user_exception 1) p).1 ≡ false)
set_value-valid_example = set_value-valid some_calls 8 (user_exception 1)
