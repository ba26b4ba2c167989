-- ===== src/Legacy/RawHttp.antt =====
-- What counts as raw HTTP: looksLikeRawHTTP against the texts that a message may begin with.
use inlets.Common.{
  ◌≡◌, ◌↔◌, refl, sym, ap, ◌∙◌, List, [], ◌∷◌, ◌++◌, true, Bool-cases, inl, inr, Bytes, codes, take,
  drop, take-append-drop, append_assoc, map, arith,
}
use inlets.Legacy.{has_prefix, has_one_of, looks_like_raw_http}

pub data RawStart : Type 0 where
  status get post put delete head options connect patch trace : RawStart

abbrev pub text : RawStart → Bytes
text status = codes "HTTP/"
text get = codes "GET "
text post = codes "POST "
text put = codes "PUT "
text delete = codes "DELETE "
text head = codes "HEAD "
text options = codes "OPTIONS "
text connect = codes "CONNECT "
text patch = codes "PATCH "
text trace = codes "TRACE "

-- the bytes begin with a method and a space, or with `HTTP/`
abbrev pub BeginsRaw : Bytes → Type 0
BeginsRaw s = (start : RawStart) × (rest : Bytes) × (s ≡ text start ++ rest)

has_prefix_append : (s p : Bytes) → has_prefix s p ≡ true → (r : Bytes) × (s ≡ p ++ r)
unfolding has_prefix
has_prefix_append s [] h = (s, refl)
has_prefix_append [] (c ∷ p) h = absurd (cc)
has_prefix_append (b ∷ s) (c ∷ p) h =
    let both : (b ≡ c) × (has_prefix s p ≡ true) = ground (arith, h) in
    let (r, e) = has_prefix_append s p both.1 in (r, rw (both.0, e) refl)

begins : (start : RawStart) (s : Bytes) → has_prefix (take 24 s) (text start) ≡ true → BeginsRaw s
begins start s h =
    let (r, e) = has_prefix_append (take 24 s) (text start) h in
    (
      start,
      r ++ drop 24 s,
      sym (take-append-drop 24 s)
          ∙ ap (λ (t : Bytes). t ++ drop 24 s) e
          ∙ append_assoc (text start) r (drop 24 s),
    )

begins_one_of :
    (starts : List RawStart) (s : Bytes)
    → has_one_of (take 24 s) (map text starts) ≡ true
    → BeginsRaw s
begins_one_of [] s h = absurd (cc)
begins_one_of (start ∷ starts) s h = elim (Bool-cases (has_prefix (take 24 s) (text start))) [
  | inl e ↦ begins start s e
  | inr e ↦ begins_one_of starts s (rw e at h)
]

abbrev starts : List RawStart
starts = status ∷ get ∷ post ∷ put ∷ delete ∷ head ∷ options ∷ connect ∷ patch ∷ trace ∷ []

raw_text : (start : RawStart) (rest : Bytes) → looks_like_raw_http (text start ++ rest) ≡ true
unfolding looks_like_raw_http has_prefix
raw_text status rest = refl
raw_text get rest = refl
raw_text post rest = refl
raw_text put rest = refl
raw_text delete rest = refl
raw_text head rest = refl
raw_text options rest = refl
raw_text connect rest = refl
raw_text patch rest = refl
raw_text trace rest = refl

-- the test of `looksLikeRawHTTP` says this
pub looks_like_raw_http_iff : (s : Bytes) → (looks_like_raw_http s ≡ true) ↔ BeginsRaw s
unfolding looks_like_raw_http
looks_like_raw_http_iff [] =
    (λ h. absurd (cc), λ (start, rest, e). ap looks_like_raw_http e ∙ raw_text start rest)
looks_like_raw_http_iff (b ∷ s) = (
  begins_one_of starts (b ∷ s),
  λ (start, rest, e). ap looks_like_raw_http e ∙ raw_text start rest,
)
