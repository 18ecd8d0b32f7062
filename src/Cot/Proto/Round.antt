-- ===== src/Cot/Proto/Round.antt =====
-- One child of a detail in `build_detail` of crates/tak-cot/src/proto.rs.
use tak_rs.Common.{
  ℕ, ◌+◌, Bool, true, false, Option, some, none, Str, str, ◌≡◌, refl, ap, sym, arith, list_eqb,
  list_eq, nat_eq, if◌then◌else◌, ◌=?◌, eqb→eq, Bool-cases, inl, inr,
}
use mathlib.Core.Path.{subst}
use tak_rs.Cot.{Result, ok, err, panic, ◌>>=◌}
use tak_rs.Cot.Proto.{Detail, Formats}
use tak_rs.Cot.Proto.Read.{
  is_none, put, convert_child, try_contact, try_group, try_precision_location, try_status, try_takv,
  try_track,
}

abbrev pub opt_count : {M : Type 0} → Option M → ℕ
opt_count none = 0
opt_count (some m) = 1

-- The number of typed messages of a detail.
abbrev pub typed_count : {F : Type 0} → Detail F → ℕ
typed_count d =
    opt_count d.contact
    + opt_count d.group
    + opt_count d.precision_location
    + opt_count d.status
    + opt_count d.takv
    + opt_count d.track

-- A typed message, once there, stays.
pub record Later {M : Type 0} (o o' : Option M) : Type 0 where
  pub later : is_none o' ≡ true → is_none o ≡ true

pub keep : {M : Type 0} {o : Option M} → Later o o
keep = record { later = λ h. h }

newly : {M : Type 0} {o : Option M} {m : M} → Later o (some m)
newly = record { later = λ h. absurd (cc (h)) }

Later-trans : {M : Type 0} {a b c : Option M} → Later a b → Later b c → Later a c
Later-trans f g = record { later = λ h. f.later (g.later h) }

pub record Grows {F : Type 0} (d d' : Detail F) : Type 0 where
  pub contact : Later d.contact d'.contact
  pub group : Later d.group d'.group
  pub precision_location : Later d.precision_location d'.precision_location
  pub status : Later d.status d'.status
  pub takv : Later d.takv d'.takv
  pub track : Later d.track d'.track

abbrev pub grows_by :
    {F : Type 0} {d d' : Detail F}
    → Later d.contact d'.contact
    → Later d.group d'.group
    → Later d.precision_location d'.precision_location
    → Later d.status d'.status
    → Later d.takv d'.takv
    → Later d.track d'.track
    → Grows d d'
grows_by a b c d e f = record {
  contact = a;
  group = b;
  precision_location = c;
  status = d;
  takv = e;
  track = f;
}

pub Grows-refl : {F : Type 0} (d : Detail F) → Grows d d
Grows-refl d = grows_by keep keep keep keep keep keep

pub Grows-trans : {F : Type 0} {a b c : Detail F} → Grows a b → Grows b c → Grows a c
Grows-trans g h =
    grows_by (Later-trans g.contact h.contact) (Later-trans g.group h.group)
      (Later-trans g.precision_location h.precision_location) (Later-trans g.status h.status)
      (Later-trans g.takv h.takv) (Later-trans g.track h.track)

-- What one round does to the detail.
pub record Round {F : Type 0} (d d' : Detail F) (consumed : Bool) : Type 0 where
  pub grows : Grows d d'
  pub counts : typed_count d' ≡ typed_count d + (if consumed then 1 else 0)
  pub same : consumed ≡ false → d' ≡ d

Round-refl : {F : Type 0} (d : Detail F) → Round d d false
Round-refl d = record { grows = Grows-refl d; counts = omega arith; same = λ e. refl }

same-Round :
    {F : Type 0} {d d1 d' : Detail F} {b1 b : Bool}
    → Round d d1 b1
    → ◌≡◌ {A = Detail F × Bool} (d1, b1) (d', b)
    → Round d d' b
same-Round {F} {d} r e = subst (λ (x : Detail F × Bool). Round d x.0 x.1) e r

added :
    {F : Type 0} {d d' : Detail F}
    → Grows d d'
    → typed_count d' ≡ typed_count d + 1
    → Round d d' true
added g h = record { grows = g; counts = h; same = λ e. absurd (cc (e)) }

-- A guarded conversion, whichever message it is for.
module _ {F M : Type 0} (set : M → Detail F → Detail F) where
  guarded-Round :
      (o : Option M) (m : Result (Option M)) (d d' : Detail F) (b : Bool)
      → ((x : M) → o ≡ none → Round d (set x d) true)
      → (if is_none o then m >>= put set d else ok (d, false)) ≡ ok (d', b)
      → Round d d' b
  guarded-Round (some x) m d d' b h e = same-Round (Round-refl d) (cc (e))
  guarded-Round none (ok none) d d' b h e = same-Round (Round-refl d) (cc (e))
  guarded-Round none (ok (some x)) d d' b h e = same-Round (h x refl) (cc (e))
  guarded-Round none (err x) d d' b h e = cc
  guarded-Round none panic d d' b h e = cc

  guarded_opaque :
      (o o' : Option M) (m : Result (Option M)) (d d1 d' : Detail F)
      → (is_none o' ≡ true → is_none o ≡ true)
      → (if is_none o then m >>= put set d else ok (d, false)) ≡ ok (d1, false)
      → (if is_none o' then m >>= put set d' else ok (d', false)) ≡ ok (d', false)
  guarded_opaque o (some x) m d d1 d' g e = refl
  guarded_opaque (some x) none m d d1 d' g e = absurd (cc (g refl))
  guarded_opaque none none (ok none) d d1 d' g e = refl
  guarded_opaque none none (ok (some x)) d d1 d' g e = absurd (cc (e))
  guarded_opaque none none (err x) d d1 d' g e = cc
  guarded_opaque none none panic d d1 d' g e = cc

-- A name is one of the six, or none of them.
name_cases :
    (P : Str → Type 0)
    → P (str "contact")
    → P (str "__group")
    → P (str "precisionlocation")
    → P (str "status")
    → P (str "takv")
    → P (str "track")
    → ((name : Str)
        → (name =? str "contact") ≡ false
        → (name =? str "__group") ≡ false
        → (name =? str "precisionlocation") ≡ false
        → (name =? str "status") ≡ false
        → (name =? str "takv") ≡ false
        → (name =? str "track") ≡ false
        → P name)
    → (name : Str) → P name
name_cases P a b c d e f other name = test (str "contact") a λ na. test (str "__group") b λ nb.
    test (str "precisionlocation") c λ nc.
      test (str "status") d
        λ nd. test (str "takv") e λ ne. test (str "track") f λ nf. other name na nb nc nd ne nf
  where
    test : (key : Str) → P key → ((name =? key) ≡ false → P name) → P name
    test key p k = elim (Bool-cases (name =? key)) [
      | inl y ↦ subst P (sym (eqb→eq name key y)) p
      | inr n ↦ k n
    ]

module _ {F T : Type 0} (formats : Formats F T) where
  pub convert_child-Round :
      (name raw : Str) (d d' : Detail F) (b : Bool)
      → convert_child formats (record { name = name; raw = raw }) d ≡ ok (d', b)
      → Round d d' b
  unfolding convert_child list_eqb
  convert_child-Round name raw d d' b =
      name_cases
        (λ n. convert_child formats (record { name = n; raw = raw }) d ≡ ok (d', b) → Round d d' b)
        (guarded-Round (λ m d. record d { contact = some m }) d.contact
          (try_contact (record { name = str "contact"; raw = raw })) d d' b
          (λ m e. added (grows_by newly keep keep keep keep keep) (omega (arith, ap opt_count e))))
        (guarded-Round (λ m d. record d { group = some m }) d.group
          (try_group (record { name = str "__group"; raw = raw })) d d' b
          (λ m e. added (grows_by keep newly keep keep keep keep) (omega (arith, ap opt_count e))))
        (guarded-Round (λ m d. record d { precision_location = some m }) d.precision_location
          (try_precision_location (record { name = str "precisionlocation"; raw = raw })) d d' b
          (λ m e. added (grows_by keep keep newly keep keep keep) (omega (arith, ap opt_count e))))
        (guarded-Round (λ m d. record d { status = some m }) d.status
          (try_status (record { name = str "status"; raw = raw })) d d' b
          (λ m e. added (grows_by keep keep keep newly keep keep) (omega (arith, ap opt_count e))))
        (guarded-Round (λ m d. record d { takv = some m }) d.takv
          (try_takv (record { name = str "takv"; raw = raw })) d d' b
          (λ m e. added (grows_by keep keep keep keep newly keep) (omega (arith, ap opt_count e))))
        (guarded-Round (λ m d. record d { track = some m }) d.track
          (try_track formats (record { name = str "track"; raw = raw })) d d' b
          (λ m e. added (grows_by keep keep keep keep keep newly) (omega (arith, ap opt_count e))))
        (λ n na nb nc nd ne nf h. same-Round (Round-refl d) (cc (rw (na, nb, nc, nd, ne, nf) at h)))
        name

  -- What a round leaves opaque, it leaves opaque once more messages are there.
  pub opaque_stays :
      (name raw : Str) (d d1 d' : Detail F)
      → Grows d d'
      → convert_child formats (record { name = name; raw = raw }) d ≡ ok (d1, false)
      → convert_child formats (record { name = name; raw = raw }) d' ≡ ok (d', false)
  unfolding convert_child list_eqb
  opaque_stays name raw d d1 d' g =
      name_cases
        (λ n.
          convert_child formats (record { name = n; raw = raw }) d ≡ ok (d1, false)
          → convert_child formats (record { name = n; raw = raw }) d' ≡ ok (d', false))
        (guarded_opaque (λ m d. record d { contact = some m }) d.contact d'.contact
          (try_contact (record { name = str "contact"; raw = raw })) d d1 d' g.contact.later)
        (guarded_opaque (λ m d. record d { group = some m }) d.group d'.group
          (try_group (record { name = str "__group"; raw = raw })) d d1 d' g.group.later)
        (guarded_opaque (λ m d. record d { precision_location = some m }) d.precision_location
          d'.precision_location
          (try_precision_location (record { name = str "precisionlocation"; raw = raw })) d d1 d'
          g.precision_location.later)
        (guarded_opaque (λ m d. record d { status = some m }) d.status d'.status
          (try_status (record { name = str "status"; raw = raw })) d d1 d' g.status.later)
        (guarded_opaque (λ m d. record d { takv = some m }) d.takv d'.takv
          (try_takv (record { name = str "takv"; raw = raw })) d d1 d' g.takv.later)
        (guarded_opaque (λ m d. record d { track = some m }) d.track d'.track
          (try_track formats (record { name = str "track"; raw = raw })) d d1 d' g.track.later)
        (λ n na nb nc nd ne nf h. rw (na, nb, nc, nd, ne, nf) refl) name
