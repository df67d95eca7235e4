-- ===== src/Grpc/Calls.antt =====
-- What the handler of unary methods of include/grpc/server.hpp answers: one answer for every outcome
-- of a call, and a second one where the callback throws.
use http_web_framework.Prelude.{
  Bool-cases, Option, [], arith, if◌then◌else◌, inl, inr, none, refl, some, true, ◌∙◌, ◌≡◌,
}
use http_web_framework.Text.{Bytes, codes}
use http_web_framework.Throwing.{
  Action, Exception, Result, Void, catch_std, is_std, returned, run_returned, threw, what, ◌>>=◌,
}
use http_web_framework.Grpc.{
  ProtobufMessage, ServerResult, Status, answer_request, deserialize_message, handle, handle_read,
  internal_error, invalid_argument_status, is_ok, is_ok_code, new_status, ok_status, reply,
  serialize_message,
}

module _ {S Q R : Type 0} (requests : ProtobufMessage Q) (responses : ProtobufMessage R)
    (handler : Q → Action S (ServerResult R)) (text : Exception → Bytes) where
  -- The data and the status that answer an outcome of the handler.
  unfoldable pub answer : Result (ServerResult R) → Bytes × Status
  answer (threw e) = ([], internal_error (what text e))
  answer (returned result) =
      if is_ok result.status
      then elim result.value [
        | some v ↦ (serialize_message responses v, ok_status)
        | none ↦ ([], ok_status)
      ]
      else ([], result.status)

  -- The outcomes that the handler is meant to have: a result that is OK has a value, and what is
  -- thrown is of a standard class.
  unfoldable pub IsOutcome : Result (ServerResult R) → Type 0
  IsOutcome (threw e) = is_std e ≡ true
  IsOutcome (returned result) = is_ok result.status ≡ true → (v : R) × (result.value ≡ some v)

  -- The one answer to a request that was read, or to none, and the state that the handler leaves.
  unfoldable pub answer_read : Option Q → S → (Bytes × Status) × S
  answer_read none s = (([], invalid_argument_status (codes "Failed to parse request")), s)
  answer_read (some request) s = let (r, s') = handler request s in (answer r, s')

  unfoldable pub answer_for : Bytes → S → (Bytes × Status) × S
  answer_for data' s = answer_read (deserialize_message requests data') s

  module _ (response_callback : Bytes → Status → Action S Void) (unchecked : Action S R) where
    -- A callback that returns: the server's answer goes out.
    unfoldable pub IsCalm : Type 0
    IsCalm =
        (d : Bytes) (st : Status) (s : S)
        → (s' : S) × (response_callback d st s ≡ (returned tt, s'))

    replied :
        (result : ServerResult R) (s : S)
        → IsOutcome (returned result)
        → reply requests responses handler response_callback unchecked text result s
          ≡ response_callback (answer (returned result)).0 (answer (returned result)).1 s
    unfolding answer IsOutcome reply
    replied result s h = elim (Bool-cases (is_ok result.status)) [
      | inl fine ↦ let (v, has) = h fine in simp (fine, has)
      | inr failed ↦ simp (failed)
    ]

    caught :
        (m : Action S Void) (d : Bytes) (st : Status) (s s' : S)
        → IsCalm
        → m s ≡ response_callback d st s'
        → catch_std m (λ e. response_callback [] (internal_error (what text e))) s
          ≡ response_callback d st s'
    unfolding IsCalm
    caught m d st s s' calm h = let (t, sent) = calm d st s' in ground (arith)

    answered :
        (request : Q) (r : Result (ServerResult R)) (s s' : S)
        → handler request s ≡ (r, s')
        → IsOutcome r
        → IsCalm
        → answer_request requests responses handler response_callback unchecked text request s
          ≡ response_callback (answer r).0 (answer r).1 s'
    unfolding answer IsOutcome answer_request
    answered request (threw e) s s' got std calm = ground (arith)
    answered request (returned result) s s' got h calm =
        caught
          (handler request >>= reply requests responses handler response_callback unchecked text)
          (answer (returned result)).0 (answer (returned result)).1 s s' calm
          (run_returned (handler request)
              (reply requests responses handler response_callback unchecked text) result s s' got
            ∙ replied result s' h)

    read_answer :
        (o : Option Q) (s : S)
        → ((request : Q) → IsOutcome (handler request s).0)
        → IsCalm
        → handle_read requests responses handler response_callback unchecked text o s
          ≡ response_callback (answer_read o s).0.0 (answer_read o s).0.1 (answer_read o s).1
    unfolding handle_read answer_read
    read_answer none s outcomes calm = refl
    read_answer (some request) s outcomes calm =
        answered request (handler request s).0 s (handler request s).1 refl (outcomes request) calm

    -- Every request is answered once, whatever its outcome: bytes that are no message, an error or a
    -- value of the handler, and a standard exception of it; if the callback returns, a result that is
    -- OK has a value, and the handler throws nothing but exceptions below std::exception.
    pub handle_answer :
        (data' : Bytes) (s : S)
        → ((request : Q) → IsOutcome (handler request s).0)
        → IsCalm
        → handle requests responses handler response_callback unchecked text data' s
          ≡ response_callback
              (answer_for data' s).0.0
              (answer_for data' s).0.1
              (answer_for data' s).1
    unfolding handle answer_for
    handle_answer data' s outcomes calm =
        read_answer (deserialize_message requests data') s outcomes calm

    -- A callback that throws a standard exception while it sends the handler's value is called a
    -- second time, with the internal error, behind whatever the first call has sent.
    pub handle_twice :
        (data' : Bytes) (request : Q) (v : R) (e : Exception) (s s' t : S)
        → deserialize_message requests data' ≡ some request
        → handler request s ≡ (returned (record { status = ok_status; value = some v }), s')
        → response_callback (serialize_message responses v) ok_status s' ≡ (threw e, t)
        → is_std e ≡ true
        → handle requests responses handler response_callback unchecked text data' s
          ≡ response_callback [] (internal_error (what text e)) t
    unfolding handle handle_read answer_request reply is_ok ok_status new_status is_ok_code
    handle_twice data' request v e s s' t read got sent std = ground (arith)
