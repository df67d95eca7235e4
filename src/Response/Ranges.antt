-- ===== src/Response/Ranges.antt =====
-- Parts of files: when `send_file_range` answers, and with what.
use native.Mathlib.Decide.{dec_le, dec_lt}
use http_web_framework.Prelude.{
  Option, ap, arith, drop, false, inl, inr, leb, length, length-drop, length-take, ltb, refl, some,
  true, ℕ, ◌+◌, ◌-◌, ◌<◌, ◌||◌, ◌∙◌, ◌≡◌, ◌≤◌, ◌⊎◌,
}
use http_web_framework.Text.{Bytes, size, substr}
use http_web_framework.Response.{Response, set_header, set_status_code}
use http_web_framework.Response.Headers.{set_content_length, update_content_length}
use http_web_framework.Response.Files.{fill_range, send_file_range}

-- The range lies within the file.
abbrev pub InFile : ℕ → ℕ → Bytes → Type 0
InFile start end content = (start ≤ end) × (end < size content)

update_content_length-fields :
    (r : Response)
    → ((update_content_length r).body ≡ r.body)
      × ((update_content_length r).status_code ≡ r.status_code)
unfolding update_content_length set_content_length set_header
update_content_length-fields r = ground arith

-- A part of a text that lies within it has the length of the range.
length-range :
    (content : Bytes) (start end : ℕ)
    → InFile start end content
    → length (substr content start (end - start + 1)) ≡ end - start + 1
length-range content start end h =
    omega (arith, length-take (end - start + 1) (drop start content), length-drop start content)

-- What the answer to a range holds.
pub record IsRange (content : Bytes) (start end : ℕ) (r : Response) : Type 0 where
  pub status : r.status_code ≡ 206
  pub body : r.body ≡ substr content start (end - start + 1)
  pub width : size r.body ≡ end - start + 1

fill_range-IsRange :
    (content : Bytes) (start end : ℕ) (r : Response)
    → InFile start end content
    → IsRange content start end (fill_range content start end r)
unfolding fill_range set_status_code set_header
fill_range-IsRange content start end r h =
    let (body', status') = update_content_length-fields _ in
    record {
      status = status';
      body = body';
      width = ap size body' ∙ length-range content start end h;
    }

test_in :
    (content : Bytes) (start end : ℕ)
    → InFile start end content
    → (leb (size content) start || leb (size content) end || ltb end start) ≡ false
test_in content start end h = ground arith

test_out :
    (content : Bytes) (start end : ℕ)
    → ¬ InFile start end content
    → (leb (size content) start || leb (size content) end || ltb end start) ≡ true
test_out content start end h = ground arith

module _ (read_file : Bytes → Option Bytes) where
  range_refused :
      (path content : Bytes) (start end : ℕ) (r : Response)
      → read_file path ≡ some content
      → ¬ InFile start end content
      → send_file_range read_file path start end r ≡ (r, false)
  unfolding send_file_range
  range_refused path content start end r e out =
      rw (send_file_range, e, test_out content start end out)

  range_sent :
      (path content : Bytes) (start end : ℕ) (r : Response)
      → read_file path ≡ some content
      → InFile start end content
      → send_file_range read_file path start end r ≡ (fill_range content start end r, true)
  unfolding send_file_range fill_range
  range_sent path content start end r e h = rw (send_file_range, e, test_in content start end h)

  -- `send_file_range` on a file that can be read: a range that does not lie within the file is
  -- refused and leaves the response as it was; any other is answered with code 206 and exactly the
  -- bytes of the range.
  pub send_file_range-IsRange :
      (path content : Bytes) (start end : ℕ) (r : Response)
      → read_file path ≡ some content
      → (InFile start end content
          × ((send_file_range read_file path start end r).1 ≡ true)
          × IsRange content start end (send_file_range read_file path start end r).0)
        ⊎ ((¬ InFile start end content) × (send_file_range read_file path start end r ≡ (r, false)))
  send_file_range-IsRange path content start end r e = elim (dec_le start end) [
    | yes le ↦ elim (dec_lt end (size content)) [
      | yes lt ↦ inl (
          rw (range_sent path content start end r e (le, lt))
            ((le, lt), refl, fill_range-IsRange content start end r (le, lt)))
      | no out ↦ inr (λ h. out h.1, range_refused path content start end r e (λ h. out h.1))
    ]
    | no out ↦ inr (λ h. out h.0, range_refused path content start end r e (λ h. out h.0))
  ]
