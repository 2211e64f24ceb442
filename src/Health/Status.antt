-- ===== src/Health/Status.antt =====
-- src/db/models/upstream.rs: the status of a row, as it is written and as it is read.
use rust_dns_backend.Base.{
  ◌≡◌, refl, ap, sym, ◌∙◌, true, some, List, [], ◌∷◌, arith, In, here, there, Bool-cases, inl, inr,
  if◌then◌else◌,
}
use rust_dns_backend.Text.{Text, codes, text_eq}
use rust_dns_backend.Text.Laws.{text_eq→≡}
use rust_dns_backend.Pool.{Upstream, is_usable}
use rust_dns_backend.Health.{find_row, set_status}

abbrev pub with_status : Upstream → Text → Upstream
with_status m status = record m { health_status = status }

abbrev pub healthy : Upstream → Upstream
healthy m = with_status m (codes "healthy")

pub usable : (m : Upstream) → m.is_active ≡ true → is_usable (healthy m) ≡ true
unfolding is_usable text_eq
usable m h = rw h refl

pub find_row-id :
    (id : Text) (rows : List Upstream) {m : Upstream} → find_row id rows ≡ some m → m.id ≡ id
unfolding find_row
find_row-id id [] h = cc
find_row-id id (x ∷ rows) {m} h = elim (Bool-cases (text_eq x.id id)) [
  | inl e ↦
      let same : x.id ≡ id = text_eq→≡ x.id id e in
      let found : x ≡ m = ground arith in ap (λ (y : Upstream). y.id) (sym found) ∙ same
  | inr e ↦ find_row-id id rows (rw e at h)
]

pub find_row-In :
    (id : Text) (rows : List Upstream) {m : Upstream} → find_row id rows ≡ some m → In m rows
unfolding find_row
find_row-In id [] h = cc
find_row-In id (x ∷ rows) {m} h = elim (Bool-cases (text_eq x.id id)) [
  | inl e ↦ let found : x ≡ m = ground arith in rw found here
  | inr e ↦ there (find_row-In id rows (rw e at h))
]

-- A status that is written is the status of the row that is found.
pub find_row-set_status :
    (id other status : Text) (rows : List Upstream) {m : Upstream}
    → find_row id rows ≡ some m
    → find_row id (set_status other status rows)
      ≡ some (if text_eq m.id other then with_status m status else m)
unfolding find_row set_status
find_row-set_status id other status [] h = cc
find_row-set_status id other status (x ∷ rows) {m} h = elim (Bool-cases (text_eq x.id id)) [
  | inl e ↦
      let found : x ≡ m = ground arith in
      let is_id : text_eq m.id id ≡ true = rw (← found) e in
      elim (Bool-cases (text_eq m.id other)) [
        | inl k ↦ rw (found, k, is_id) refl
        | inr k ↦ rw (found, k, is_id) refl
      ]
  | inr e ↦
      let rest = find_row-set_status id other status rows (rw e at h) in
      elim (Bool-cases (text_eq x.id other)) [ inl k ↦ rw (k, e) rest | inr k ↦ rw (k, e) rest ]
]
