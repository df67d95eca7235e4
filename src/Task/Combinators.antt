-- ===== src/Task/Combinators.antt =====
-- How often `finally` of include/async/task.hpp runs its function, and with what result.
use http_web_framework.Prelude.{arith, refl, ◌∙◌, ◌≡◌}
use http_web_framework.Throwing.{
  Action, Exception, Result, Void, catch_any, pure, raise, returned, threw, ◌>>=◌, ◌>>◌,
}
use http_web_framework.Task.{Task, finally, get}

module _ {S T : Type 0} where
  -- What finally does, over what the task does.
  abbrev finally_body : Action S T → Action S Void → Action S T
  finally_body run func = catch_any (do result ← run; func; pure result) (λ e. do func; raise e)

  get-finally :
      (this : Task S T) (func : Action S Void) (s : S)
      → get (finally this func) s ≡ finally_body (get this) func s
  unfolding finally get
  get-finally this func s = refl

  -- A function that does not throw is run once behind the task, whether the task returned or threw,
  -- and the task's own outcome is the result.
  pub finally_once :
      (this : Task S T) (func : Action S Void) (r : Result T) (s s1 s2 : S)
      → get this s ≡ (r, s1)
      → func s1 ≡ (returned tt, s2)
      → get (finally this func) s ≡ (r, s2)
  finally_once this func (returned a) s s1 s2 h k = get-finally this func s ∙ ground arith
  finally_once this func (threw e) s s1 s2 h k = get-finally this func s ∙ ground arith

  -- A function that throws behind a task that returned is run a second time by the handler, from the
  -- state that the first run left; the exception of the later run that throws is what comes out.
  pub finally_twice :
      (this : Task S T) (func : Action S Void) (a : T) (e : Exception) (s s1 s2 : S)
      → get this s ≡ (returned a, s1)
      → func s1 ≡ (threw e, s2)
      → get (finally this func) s
        ≡ ((elim (func s2).0 [ returned u ↦ threw e | threw e' ↦ threw e' ]), (func s2).1)
  finally_twice this func a e s s1 s2 h k = get-finally this func s ∙ ground arith
