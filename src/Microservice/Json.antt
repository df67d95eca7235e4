-- ===== src/Microservice/Json.antt =====
-- What extract_field of examples/modern_microservice.cpp reads from the text that serialize of the
-- event writes.
use http_web_framework.Prelude.{
  [], ap, arith, drop, drop-append, Bool, true, not, ◌&&◌, ◌-◌, drop-drop, false, length, refl,
  some, suc, take-append, ℕ, ◌++◌, ◌+◌, ◌∙◌, ◌∷◌, ◌≡◌,
}
use http_web_framework.Text.{Bytes, Lacks, codes, find-append, find_from, same_text, starts_with}
use http_web_framework.Microservice.{UserCreatedEvent, serialize}
use http_web_framework.Microservice.Handlers.{
  extract_field, field_behind, find_text, text_behind, text_until, value_behind,
}

-- A name in quotation marks, and a member of an object with a text as its value.
abbrev quoted : Bytes → Bytes
quoted k = b'"' ∷ k ++ b'"' ∷ []

abbrev member : Bytes → Bytes → Bytes → Bytes
member k v rest = quoted k ++ (b':' ∷ b'"' ∷ (v ++ b'"' ∷ rest))

-- The needle is first found where `t` starts.
abbrev IsAt : Bytes → Bytes → Bytes → Type 0
IsAt needle t s = (i : ℕ) × (find_text needle s ≡ some i) × (drop i s ≡ t)

starts_with_miss :
    (x k s : Bytes)
    → Lacks b'"' x
    → Lacks b'"' k
    → same_text x k ≡ false
    → starts_with (x ++ b'"' ∷ s) (k ++ b'"' ∷ []) ≡ false
unfolding starts_with same_text
starts_with_miss [] [] s hx hk h = cc
starts_with_miss [] (c ∷ k) s hx hk h = ground arith
starts_with_miss (a ∷ x) [] s hx hk h = ground arith
starts_with_miss (a ∷ x) (c ∷ k) s hx hk h = ground (arith, starts_with_miss x k s hx.1 hk.1)

find_text-append :
    (needle p s : Bytes) (i : ℕ)
    → Lacks b'"' p
    → find_text (b'"' ∷ needle) s ≡ some i
    → find_text (b'"' ∷ needle) (p ++ s) ≡ some (length p + i)
unfolding find_text starts_with
find_text-append needle [] s i h k = ground arith
find_text-append needle (c ∷ p) s i h k = ground (arith, find_text-append needle p s i h.1 k)

past_value :
    (k u t s : Bytes)
    → Lacks b'"' u
    → Lacks b'"' k
    → same_text u k ≡ false
    → IsAt (quoted k) t (b'"' ∷ s)
    → IsAt (quoted k) t (b'"' ∷ u ++ b'"' ∷ s)
unfolding find_text starts_with
past_value k u t s hu hk differ (i, found, here) = (
  suc (length u + i),
  ground (
    arith,
    starts_with_miss u k s hu hk differ,
    find_text-append (k ++ b'"' ∷ []) u (b'"' ∷ s) i hu found,
  ),
  drop-drop (length u) i (u ++ b'"' ∷ s) ∙ rw (drop-append u (b'"' ∷ s)) here,
)

-- The needle starts nowhere in `p`, where `s` stands behind it.
is_passed : Bytes → Bytes → Bytes → Bool
is_passed needle [] s = true
is_passed needle (c ∷ p) s = not (starts_with (c ∷ (p ++ s)) needle) && is_passed needle p s

past_text :
    (needle p t s : Bytes) → is_passed needle p s ≡ true → IsAt needle t s → IsAt needle t (p ++ s)
unfolding is_passed find_text
past_text needle [] t s h at = at
past_text needle (c ∷ p) t s h at =
    let (i, found, here) = past_text needle p t s (ground arith) at in (suc i, ground arith, here)

find_from_at :
    (c start : ℕ) (json before rest : Bytes)
    → drop start json ≡ before ++ c ∷ rest
    → Lacks c before
    → find_from c start json ≡ some (start + length before)
unfolding find_from
find_from_at c start json before rest here h = rw (here, find-append c before rest h) refl

drop_further :
    (start : ℕ) (json before rest : Bytes)
    → drop start json ≡ before ++ rest
    → drop (start + length before) json ≡ rest
drop_further start json before rest here =
    drop-drop start (length before) json ∙ rw here (drop-append before rest)

value_at :
    (json v rest : Bytes) (colon : ℕ)
    → Lacks b'"' v
    → drop colon json ≡ b':' ∷ b'"' ∷ v ++ b'"' ∷ rest
    → value_behind json (some colon) ≡ v
unfolding value_behind text_behind text_until
value_at json v rest colon h here =
    let start = colon + 1 + 1 in
    let opens : find_from b'"' colon json ≡ some (colon + 1) =
      find_from_at b'"' colon json (b':' ∷ []) (v ++ b'"' ∷ rest) here (ground arith) in
    let value : drop start json ≡ v ++ b'"' ∷ rest =
      drop_further (colon + 1) json (b'"' ∷ []) (v ++ b'"' ∷ rest)
        (drop_further colon json (b':' ∷ []) (b'"' ∷ v ++ b'"' ∷ rest) here) in
    let all : start + length v - start ≡ length v = omega arith in
    ap (text_behind json) opens
    ∙ ap (text_until json start) (find_from_at b'"' start json v rest value h)
    ∙ rw (value, all) (take-append v (b'"' ∷ rest))

extract_field_at :
    (json k v rest : Bytes)
    → Lacks b':' (quoted k)
    → Lacks b'"' v
    → IsAt (quoted k) (member k v rest) json
    → extract_field json k ≡ v
unfolding extract_field field_behind
extract_field_at json k v rest hk hv (start, found, here) =
    ap (field_behind json) found
    ∙ ap (value_behind json)
        (find_from_at b':' start json (quoted k) (b'"' ∷ v ++ b'"' ∷ rest) here hk)
    ∙ value_at json v rest (start + length (quoted k)) hv
        (drop_further start json (quoted k) (b':' ∷ b'"' ∷ v ++ b'"' ∷ rest) here)

-- What serialize writes is read back, field by field: if no field has a quotation mark, and no field
-- before another one is the other one's name.
pub extract_field-serialize :
    (e : UserCreatedEvent)
    → Lacks b'"' e.user_id
    → Lacks b'"' e.email
    → Lacks b'"' e.name
    → same_text e.user_id (codes "email") ≡ false
    → same_text e.user_id (codes "name") ≡ false
    → same_text e.email (codes "name") ≡ false
    → (extract_field (serialize e) (codes "user_id") ≡ e.user_id)
      × (extract_field (serialize e) (codes "email") ≡ e.email)
      × (extract_field (serialize e) (codes "name") ≡ e.name)
unfolding serialize find_text starts_with is_passed
extract_field-serialize e hu he hn ue un en =
    let after_name = member (codes "name") e.name (codes "}") in
    let name_text = codes "\",\"name\":\"" ++ (e.name ++ codes "\"}") in
    let after_email = member (codes "email") e.email (b',' ∷ after_name) in
    let email_text = codes "\",\"email\":\"" ++ (e.email ++ name_text) in
    let name_past_email : IsAt (quoted (codes "name")) after_name (b'"' ∷ (e.email ++ name_text)) =
      past_value (codes "name") e.email after_name (b',' ∷ after_name) he (ground arith) en
        (2, refl, refl) in
    let name_in_email : IsAt (quoted (codes "name")) after_name email_text =
      past_text (quoted (codes "name")) (codes "\",\"email\":") after_name
        (b'"' ∷ (e.email ++ name_text)) refl name_past_email in
    (
      extract_field_at (serialize e) (codes "user_id") e.user_id (b',' ∷ after_email) (ground arith)
          hu (1, refl, refl),
      extract_field_at (serialize e) (codes "email") e.email (b',' ∷ after_name) (ground arith) he (
          past_text (quoted (codes "email")) (codes "{\"user_id\":") after_email
            (b'"' ∷ (e.user_id ++ email_text)) refl
            (past_value (codes "email") e.user_id after_email (b',' ∷ after_email) hu (ground arith)
              ue (2, refl, refl))),
      extract_field_at (serialize e) (codes "name") e.name (codes "}") (ground arith) hn (
          past_text (quoted (codes "name")) (codes "{\"user_id\":") after_name
            (b'"' ∷ (e.user_id ++ email_text)) refl
            (past_value (codes "name") e.user_id after_name (b',' ∷ after_email) hu (ground arith)
              un name_in_email)),
    )
