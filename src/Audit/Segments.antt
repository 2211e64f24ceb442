-- ===== src/Audit/Segments.antt =====
-- src/api/middleware/audit.rs: the identifiers in a path do not count.
use rust_dns_backend.Base.{
  ◌≡◌, refl, ap, Bool, true, false, not, List, [], ◌∷◌, ◌++◌, ◌==◌, is_nil, keep_if, Bool-cases,
  inl, inr,
}
use rust_dns_backend.Text.{Text, Unicode, codes, contains, strip_prefix}
use rust_dns_backend.Text.Split.{split}
use rust_dns_backend.Text.SplitLaws.{split_by-append, split_by_absent}
use rust_dns_backend.Audit.{
  Method, is_id_segment, of_segments, strip_api, segments_of, derive_resource_action,
}

keep_if-append :
    {A : Type 0} (p : A → Bool) (xs ys : List A)
    → keep_if p (xs ++ ys) ≡ keep_if p xs ++ keep_if p ys
unfolding keep_if
keep_if-append p [] ys = refl
keep_if-append p (x ∷ xs) ys = elim (Bool-cases (p x)) [
  | inl e ↦ rw e (ap (λ (t : List _). x ∷ t) (keep_if-append p xs ys))
  | inr e ↦ rw e (keep_if-append p xs ys)
]

-- `/api/v1/resource/rest`
abbrev pub api_path : Text → Text → Text
api_path resource rest = codes "/api/v1/" ++ (resource ++ b'/' ∷ rest)

module _ ⦃u : Unicode⦄ where
  segments-split :
      (s rest : Text)
      → contains b'/' s ≡ false
      → is_nil s ≡ false
      → keep_if (λ x. not (is_nil x)) (split b'/' (s ++ b'/' ∷ rest))
        ≡ s ∷ keep_if (λ x. not (is_nil x)) (split b'/' rest)
  unfolding split contains keep_if
  segments-split s rest h k =
      rw
        (split_by-append (λ x. x == b'/') s b'/' rest refl, split_by_absent (λ x. x == b'/') s h, k)

  segments-api_path :
      (resource rest : Text)
      → contains b'/' resource ≡ false
      → is_nil resource ≡ false
      → segments_of (api_path resource rest)
        ≡ resource ∷ keep_if (λ x. not (is_nil x)) (split b'/' rest)
  unfolding segments_of strip_api strip_prefix
  segments-api_path resource rest h k = segments-split resource rest h k

  -- An identifier behind the resource changes nothing: the request stands for the same resource and
  -- the same action as without it, whatever follows. The segments hold no slash and are not empty.
  pub derive-id :
      (resource id rest : Text) (method : Method)
      → contains b'/' resource ≡ false
      → is_nil resource ≡ false
      → contains b'/' id ≡ false
      → is_nil id ≡ false
      → is_id_segment id ≡ true
      → derive_resource_action (api_path resource (id ++ b'/' ∷ rest)) method
        ≡ derive_resource_action (api_path resource rest) method
  unfolding derive_resource_action of_segments keep_if
  derive-id resource id rest method h k i j is_id = rw (
    segments-api_path resource (id ++ b'/' ∷ rest) h k,
    segments-api_path resource rest h k,
    segments-split id rest i j,
    is_id,
  )
