-- ===== src/Request/UriParts.antt =====
-- Which parts of an address the getters return: against an address put together from its parts.
use native.Mathlib.Numerals.{add-one}
use http_web_framework.Prelude.{
  All-append, Option, [], append-nil, append_assoc, arith, drop, drop-append, drop-append-cons,
  length, length-append, min, none, some, suc, sym, take-append, ℕ, ◌++◌, ◌+◌, ◌-◌, ◌∷◌, ◌≡◌,
}
use http_web_framework.Text.{Bytes, Lacks, find, find-append, find_from, find_of_Lacks}
use http_web_framework.Request.Uri.{fragment_of, path_of, query_of}

-- An address as its parts.
pub record Parts : Type 0 where
  pub path : Bytes
  pub query : Option Bytes
  pub fragment : Option Bytes

abbrev print_fragment : Option Bytes → Bytes
print_fragment none = []
print_fragment (some f) = b'#' ∷ f

abbrev print_query : Option Bytes → Option Bytes → Bytes
print_query none f = print_fragment f
print_query (some q) f = b'?' ∷ (q ++ print_fragment f)

-- `path [ "?" query ] [ "#" fragment ]`
abbrev pub print_parts : Parts → Bytes
print_parts u = u.path ++ print_query u.query u.fragment

abbrev pub or_empty : Option Bytes → Bytes
or_empty none = []
or_empty (some s) = s

-- What the query may hold, and the fragment where there is no query.
abbrev QueryFits : Option Bytes → Option Bytes → Type 0
QueryFits (some q) f = Lacks b'#' q
QueryFits none none = Unit
QueryFits none (some f) = Lacks b'?' f

-- The path has neither mark in it, the query has no `#`, and without a query the fragment has no `?`.
abbrev pub IsParts : Parts → Type 0
IsParts u = Lacks b'?' u.path × Lacks b'#' u.path × QueryFits u.query u.fragment

-- What the getters find in a text.
record Finds (uri p q f : Bytes) : Type 0 where
  path : path_of uri ≡ p
  query : query_of uri ≡ q
  fragment : fragment_of uri ≡ f

Lacks-append : (c : ℕ) (s t : Bytes) → Lacks c s → Lacks c t → Lacks c (s ++ t)
Lacks-append c s t h k = All-append _ s t h k

drop_behind : (p : Bytes) (c : ℕ) (t : Bytes) → drop (length p + 1) (p ++ c ∷ t) ≡ t
drop_behind p c t = rw add-one (drop-append-cons p c t)

-- A search that starts at the end of a part.
find_from_behind :
    (c : ℕ) (p t : Bytes) (o : Option ℕ)
    → find c t ≡ o
    → find_from c (length p) (p ++ t) ≡ (elim o [ none ↦ none | some i ↦ some (length p + i) ])
unfolding find_from
find_from_behind c p t none e = rw (drop-append p t, e, find_from)
find_from_behind c p t (some i) e = rw (drop-append p t, e, find_from)

-- The first occurrence behind a part that lacks the byte.
find_behind :
    (c : ℕ) (p t : Bytes) (i : ℕ)
    → Lacks c p
    → find c t ≡ some i
    → find c (p ++ t) ≡ some (length p + i)
unfolding find
find_behind c [] t i h e = ground (arith, e)
find_behind c (x ∷ p) t i (hx, h) e = ground (arith, find_behind c p t i h e)

drop_whole :
    (p q f : Bytes) → drop (length p + suc (length q) + 1) (p ++ b'?' ∷ (q ++ b'#' ∷ f)) ≡ f
drop_whole p q f =
    let n : length p + suc (length q) + 1 ≡ length (p ++ b'?' ∷ q) + 1 =
      omega (arith, length-append p (b'?' ∷ q)) in
    rw (n, ← append_assoc p (b'?' ∷ q) (b'#' ∷ f)) (drop_behind (p ++ b'?' ∷ q) b'#' f)

plain-Finds : (p : Bytes) → Lacks b'?' p → Lacks b'#' p → Finds p p [] []
unfolding path_of query_of fragment_of
plain-Finds p hq hf =
    let no_q = find_of_Lacks b'?' p hq in
    let no_f = find_of_Lacks b'#' p hf in
    record {
      path = rw (no_q, no_f, path_of);
      query = rw (no_q, query_of);
      fragment = rw (no_f, fragment_of);
    }

fragment-Finds :
    (p f : Bytes) → Lacks b'?' p → Lacks b'#' p → Lacks b'?' f → Finds (p ++ b'#' ∷ f) p [] f
unfolding path_of query_of fragment_of
fragment-Finds p f hq hf hn =
    let no_q = find_of_Lacks b'?' (p ++ b'#' ∷ f) (Lacks-append b'?' p _ hq (omega arith, hn)) in
    let at_f = find-append b'#' p f hf in
    record {
      path = rw (no_q, at_f, path_of) (take-append p (b'#' ∷ f));
      query = rw (no_q, query_of);
      fragment = rw (at_f, fragment_of) (drop_behind p b'#' f);
    }

query-Finds :
    (p q : Bytes) → Lacks b'?' p → Lacks b'#' p → Lacks b'#' q → Finds (p ++ b'?' ∷ q) p q []
unfolding path_of query_of fragment_of
query-Finds p q hq hf hn =
    let at_q = find-append b'?' p q hq in
    let no_f = find_of_Lacks b'#' (p ++ b'?' ∷ q) (Lacks-append b'#' p _ hf (omega arith, hn)) in
    let behind : find b'#' (b'?' ∷ q) ≡ none = find_of_Lacks b'#' (b'?' ∷ q) (omega arith, hn) in
    record {
      path = rw (at_q, no_f, path_of) (take-append p (b'?' ∷ q));
      query =
          rw (at_q, find_from_behind b'#' p (b'?' ∷ q) none behind, query_of)
            (drop_behind p b'?' q);
      fragment = rw (no_f, fragment_of);
    }

whole-Finds :
    (p q f : Bytes)
    → Lacks b'?' p
    → Lacks b'#' p
    → Lacks b'#' q
    → Finds (p ++ b'?' ∷ (q ++ b'#' ∷ f)) p q f
unfolding path_of query_of fragment_of
whole-Finds p q f hq hf hn =
    let at_q = find-append b'?' p (q ++ b'#' ∷ f) hq in
    let behind : find b'#' (b'?' ∷ (q ++ b'#' ∷ f)) ≡ some (suc (length q)) =
      find-append b'#' (b'?' ∷ q) f (omega arith, hn) in
    let at_f : find b'#' (p ++ b'?' ∷ (q ++ b'#' ∷ f)) ≡ some (length p + suc (length q)) =
      find_behind b'#' p _ _ hf behind in
    let first : min (length p) (length p + suc (length q)) ≡ length p = omega arith in
    let width : length p + suc (length q) - length p - 1 ≡ length q = omega arith in
    record {
      path = rw (at_q, at_f, path_of, first) (take-append p _);
      query =
          rw
            (
              at_q,
              find_from_behind b'#' p _ (some (suc (length q))) behind,
              query_of,
              width,
              drop_behind p b'?' (q ++ b'#' ∷ f),
            )
            (take-append q (b'#' ∷ f));
      fragment = rw (at_f, fragment_of) (drop_whole p q f);
    }

query_part-Finds :
    (p : Bytes) (q f : Option Bytes)
    → Lacks b'?' p
    → Lacks b'#' p
    → QueryFits q f
    → Finds (p ++ print_query q f) p (or_empty q) (or_empty f)
query_part-Finds p none none hq hf k = rw append-nil (plain-Finds p hq hf)
query_part-Finds p none (some f) hq hf k = fragment-Finds p f hq hf k
query_part-Finds p (some q) none hq hf k = rw append-nil (query-Finds p q hq hf k)
query_part-Finds p (some q) (some f) hq hf k = whole-Finds p q f hq hf k

-- The getters take an address that is printed from its parts apart into these parts again; a part
-- that is not there is empty. The path may hold neither `?` nor `#`, the query no `#`, and a
-- fragment behind no query no `?`.
pub parts-print_parts :
    (u : Parts)
    → IsParts u
    → (path_of (print_parts u) ≡ u.path)
      × (query_of (print_parts u) ≡ or_empty u.query)
      × (fragment_of (print_parts u) ≡ or_empty u.fragment)
parts-print_parts u (hq, hf, k) =
    let f = query_part-Finds u.path u.query u.fragment hq hf k in (f.path, f.query, f.fragment)

-- A `?` in a fragment is taken for the start of a query: the getters return a query for an address
-- that has none.
pub query_of_fragment :
    (p f q : Bytes)
    → Lacks b'?' p
    → Lacks b'?' f
    → Lacks b'#' q
    → query_of (p ++ b'#' ∷ (f ++ b'?' ∷ q)) ≡ q
unfolding query_of
query_of_fragment p f q hp hf hq =
    let before = p ++ b'#' ∷ f in
    let e : p ++ b'#' ∷ (f ++ b'?' ∷ q) ≡ before ++ b'?' ∷ q = sym (append_assoc p (b'#' ∷ f) _) in
    let at_q = find-append b'?' before q (Lacks-append b'?' p (b'#' ∷ f) hp (omega arith, hf)) in
    let behind : find b'#' (b'?' ∷ q) ≡ none = find_of_Lacks b'#' (b'?' ∷ q) (omega arith, hq) in
    rw e (
      rw (at_q, find_from_behind b'#' before (b'?' ∷ q) none behind, query_of)
        (drop_behind before b'?' q))
