-- ===== src/Expiry/Rows.antt =====
-- What the loop of internal/service/expiry.go does to one license.
use saas_admin.Prelude.{
  ◌≤◌, String, ◌≡◌, refl, sym, ap, ◌∙◌, inl, inr, Bool, true, false, ◌&&◌, ◌||◌, some, List, [],
  ◌∷◌, arith, ◌==◌, eq_iff, if◌then◌else◌, Bool-cases,
}
use saas_admin.Prelude.Table.{select, count, update}
use saas_admin.Model.{License, expired}
use saas_admin.Expiry.{
  update_license_and_subscription, rows_where, expire_all, expire, ExpiryState, ExpiryCall, has_id,
  with_status,
}

-- The primary key of the table.
abbrev pub PrimaryKey : List License → Type 0
PrimaryKey t = (id : String) → count (has_id id) t ≤ 1

-- Some license of the list with that id is due.
abbrev any_due : (License → Bool) → List License → String → Bool
any_due due [] id = false
any_due due (lic ∷ t) id = (due lic && (lic.id == id)) || any_due due t id

abbrev pub ends : ExpiryCall → License → License
ends call lic = with_status call.now expired lic

select-update_id :
    (call : ExpiryCall) (id i : String) (t : List License) {lic : License}
    → select (has_id i) t ≡ some lic
    → select (has_id i) (update (has_id id) (ends call) t)
      ≡ some (if id == i then ends call lic else lic)
unfolding select update
select-update_id call id i [] h = absurd (ground arith)
select-update_id call id i (x ∷ t) {lic = lic} h = elim (Bool-cases (x.id == i)) [
  | inl e ↦
      let s : x ≡ lic = ground (arith, h, e) in
      let p : x.id ≡ i = (eq_iff x.id i).0 e in
      elim (Bool-cases (id == i)) [
        | inl k ↦
            let q : id ≡ i = (eq_iff id i).0 k in
            let e' : x.id == id ≡ true = rw q e in rw (e', e, k) (ap (λ y. some (ends call y)) s)
        | inr k ↦
            let e' : x.id == id ≡ false = ground (arith, k, p, eq_iff id i, eq_iff x.id id) in
            rw (e', e, k) (ap some s)
      ]
  | inr e ↦
      let h' : select (has_id i) t ≡ some lic = ground (arith, h, e) in
      elim (Bool-cases (x.id == id)) [
        | inl k ↦ rw (k, e) (select-update_id call id i t {lic = lic} h')
        | inr k ↦ rw (k, e) (select-update_id call id i t {lic = lic} h')
      ]
]

licenses-expire :
    (call : ExpiryCall) (tells : Bool) (lic : License) (w : ExpiryState)
    → call.writes lic.id ≡ true
    → (expire call tells lic w).licenses ≡ update (has_id lic.id) (ends call) w.licenses
unfolding expire update_license_and_subscription
licenses-expire call tells lic w e = rw (e, expire, update_license_and_subscription) refl

both :
    (call : ExpiryCall) (lic : License) (b : Bool)
    → some (if b then ends call (ends call lic) else ends call lic) ≡ some (ends call lic)
both call lic true = refl
both call lic false = refl

select-expire_all :
    (call : ExpiryCall) (tells : Bool) (due : License → Bool) (i : String) (found : List License)
    (w : ExpiryState) {lic : License}
    → ((id : String) → call.writes id ≡ true)
    → select (has_id i) w.licenses ≡ some lic
    → select (has_id i) (expire_all call tells due found w).licenses
      ≡ some (if any_due due found i then ends call lic else lic)
unfolding expire_all
select-expire_all call tells due i [] w a h = h
select-expire_all call tells due i (x ∷ found) w {lic = lic} a h = elim (Bool-cases (due x)) [
  | inr n ↦ rw (n, expire_all) (select-expire_all call tells due i found w {lic = lic} a h)
  | inl d ↦
      let w' = expire call tells x w in
      let here : select (has_id i) w'.licenses ≡ some (if x.id == i then ends call lic else lic) =
        rw (licenses-expire call tells x w (a x.id))
          (select-update_id call x.id i w.licenses {lic = lic} h) in
      elim (Bool-cases (x.id == i)) [
        | inl k ↦
            let here' : select (has_id i) w'.licenses ≡ some (ends call lic) = here ∙ (rw k refl) in
            rw (d, k, expire_all)
              (select-expire_all call tells due i found w' {lic = ends call lic} a here'
                ∙ both call lic _)
        | inr k ↦
            let here' : select (has_id i) w'.licenses ≡ some lic = here ∙ (rw k refl) in
            rw (d, k, expire_all) (select-expire_all call tells due i found w' {lic = lic} a here')
      ]
]

any_due-none :
    (due : License → Bool) (i : String) (t : List License)
    → count (has_id i) t ≡ 0
    → any_due due t i ≡ false
unfolding count
any_due-none due i [] z = refl
any_due-none due i (x ∷ t) z = ground (arith, any_due-none due i t)

count-rows_where :
    (p : License → Bool) (i : String) (t : List License)
    → count (has_id i) (rows_where p t) ≤ count (has_id i) t
unfolding count rows_where
count-rows_where p i [] = omega arith
count-rows_where p i (x ∷ t) = ground (arith, count-rows_where p i t)

-- Whether the loop ends a license is decided by its own row.
any_due-rows_where :
    (due p : License → Bool) (i : String) (t : List License) {lic : License}
    → select (has_id i) t ≡ some lic
    → count (has_id i) t ≤ 1
    → any_due due (rows_where p t) i ≡ (p lic && due lic)
unfolding select count rows_where
any_due-rows_where due p i [] h c = absurd (ground arith)
any_due-rows_where due p i (x ∷ t) {lic = lic} h c = elim (Bool-cases (x.id == i)) [
  | inl e ↦
      let s : x ≡ lic = ground (arith, h, e) in
      let z : any_due due (rows_where p t) i ≡ false =
        any_due-none due i (rows_where p t) (ground (arith, count-rows_where p i t, c, e)) in
      elim (Bool-cases (p x)) [
        | inl y ↦ rw (y, e, z, sym s, y) (ground arith)
        | inr y ↦ rw (y, z, sym s, y) refl
      ]
  | inr e ↦
      let h' : select (has_id i) t ≡ some lic = ground (arith, h, e) in
      let z = any_due-rows_where due p i t {lic = lic} h' (ground (arith, c, e)) in
      elim (Bool-cases (p x)) [ inl y ↦ rw (y, e, z) (ground arith) | inr y ↦ rw (y, z) refl ]
]

-- After a check whose statements run, the row of a license is ended if it was found and due, and
-- otherwise as it was.
pub select-check :
    (call : ExpiryCall) (tells : Bool) (due p : License → Bool) (i : String) (w : ExpiryState)
    {lic : License}
    → ((id : String) → call.writes id ≡ true)
    → PrimaryKey w.licenses
    → select (has_id i) w.licenses ≡ some lic
    → select (has_id i) (expire_all call tells due (rows_where p w.licenses) w).licenses
      ≡ some (if p lic && due lic then ends call lic else lic)
select-check call tells due p i w {lic = lic} a k h =
    select-expire_all call tells due i (rows_where p w.licenses) w {lic = lic} a h
    ∙ ap (λ b. some (if b then ends call lic else lic))
        (any_due-rows_where due p i w.licenses {lic = lic} h (k i))
