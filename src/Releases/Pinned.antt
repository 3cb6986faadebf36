-- ===== src/Releases/Pinned.antt =====
-- What the hash and the signature of an artifact stand for (internal/service/release.go and
-- internal/service/release_signing.go).
use saas_admin.Prelude.{
  ℕ, String, ◌≡◌, refl, sym, ap, ◌∙◌, inl, inr, false, not, ◌&&◌, none, some, List, arith, ◌==◌,
  eq_iff, ltb, Bool-cases, Option-cases,
}
use saas_admin.Prelude.Rows.{select-update}
use saas_admin.Prelude.Table.{select-eq-some, select, update}
use saas_admin.Apperr.{ok}
use saas_admin.Database.{Found, found, no_rows, failed, Io}
use saas_admin.Releases.{is_draft, ReleaseArtifact, ReleaseTables}
use saas_admin.Releases.Artifacts.{
  artifact_release, when_draft, with_file, update_artifact_file, artifact_id,
}
use saas_admin.Releases.Publish.{signed}
use saas_admin.Releases.Finalize.{
  HeadAnswer, head_of, no_object, head_error, max_finalize_read_size, find_artifact,
  finalize_artifact, ObjectCode, BodyAnswer, body_of, no_body, body_error, HashAnswer, hash_of,
  no_content, hash_error, compute_artifact_sha256, FinalizeArtifactInput, pin, hashed, final_type,
  SigningKey, SignCode, sign_body, sign_artifact_with,
}

-- The signature is one of the stored content, made with the private key of the product's signing key,
-- and the content has the hash that was pinned.
abbrev pub SignedContent :
    SignCode → String → SigningKey → ReleaseArtifact → String → String → Type 0
SignedContent c product_id key a sig id =
    (id ≡ key.id)
    × (seed : String) × (content : String) × (c.decrypt key.private_key_encrypted product_id
        ≡ some seed)
    × (c.objects.body a.file_key ≡ body_of content)
    × ((a.sha256 == "") ≡ false → c.objects.hash content ≡ a.sha256)
    × (sig ≡ c.sign seed content)

SignedContent-sign_body :
    (c : SignCode) (product_id : String) (key : SigningKey) (a : ReleaseArtifact) (seed : String)
    (b : BodyAnswer) {sig id : String}
    → c.decrypt key.private_key_encrypted product_id ≡ some seed
    → c.objects.body a.file_key ≡ b
    → sign_body c seed key a ≡ signed sig id
    → SignedContent c product_id key a sig id
unfolding sign_body
SignedContent-sign_body c product_id key a seed no_body d b h = absurd (ground (arith, b, h))
SignedContent-sign_body c product_id key a seed (body_error e) d b h = absurd (ground (arith, b, h))
SignedContent-sign_body c product_id key a seed (body_of content) {sig = sig} {id = id} d b h =
    let x : id ≡ key.id = ground (arith, b, h) in
    let y : sig ≡ c.sign seed content = ground (arith, b, h) in
    (
      x,
      seed,
      content,
      d,
      b,
      λ n. ground (arith, b, h, n, eq_iff (c.objects.hash content) a.sha256),
      y,
    )

-- A signature is never put on other bytes: what `SignArtifactWith` signs is the content that is in
-- storage now, with the private key of the key that it names, and that content has the hash pinned when
-- the upload was finalized, so bytes that were replaced afterwards are not signed.
pub sign_artifact_with-SignedContent :
    (c : SignCode) (product_id : String) (key : SigningKey) (a : ReleaseArtifact) (sig id : String)
    → sign_artifact_with c product_id key a ≡ signed sig id
    → SignedContent c product_id key a sig id
unfolding sign_artifact_with
sign_artifact_with-SignedContent c product_id key a sig id h =
    elim (Option-cases (c.decrypt key.private_key_encrypted product_id)) [
      | inl n ↦ absurd (ground (arith, n, h))
      | inr (seed, d) ↦
          SignedContent-sign_body c product_id key a seed _ {sig = sig} {id = id} d refl
            (ground (arith, d, h))
    ]

-- The artifact that is answered has the size and the hash of the stored content, which is the one that
-- the caller expected.
abbrev pub Pins : ObjectCode → FinalizeArtifactInput → ReleaseArtifact → Type 0
Pins c input a =
    (content : String) × (c.body a.file_key ≡ body_of content)
    × (a.sha256 ≡ c.hash content)
    × (a.file_size ≡ c.bytes content)
    × ((input.expected_sha256 == "") ≡ false → input.expected_sha256 ≡ a.sha256)

-- A change of an artifact that succeeds has been written.
when_draft_inv :
    (io : Io) (id : String) (write : List ReleaseArtifact → List ReleaseArtifact)
    (db : ReleaseTables)
    → (when_draft io id write db).1 ≡ none
    → (when_draft io id write db).0.artifacts ≡ write db.artifacts
when_draft_inv io id write db = elim (Bool-cases (io 0)) [
  | inr e ↦ rw e (λ h. absurd (cc))
  | inl e ↦ elim (Option-cases (artifact_release id db)) [
    | inl f ↦ rw (e, f) (λ h. absurd (cc))
    | inr (p, f) ↦ elim (Bool-cases (is_draft p.1.status)) [
      | inr g ↦ rw (e, f, g) (λ h. absurd (cc))
      | inl g ↦ elim (Bool-cases (io 1 && io 2)) [
        | inr k ↦ rw (e, f, g, k) (λ h. absurd (cc))
        | inl k ↦ rw (e, f, g, k) (λ h. refl)
      ]
    ]
  ]
]

-- The row of an id after an update of it.
updated :
    (id : String) (f : ReleaseArtifact → ReleaseArtifact) (t : List ReleaseArtifact)
    → ((r : ReleaseArtifact) → artifact_id id (f r) ≡ artifact_id id r)
    → {a : ReleaseArtifact} → select (artifact_id id) (update (artifact_id id) f t) ≡ some a
    → (r : ReleaseArtifact) × (a ≡ f r)
updated id f t k {a = a} h =
    let u = select-update (artifact_id id) (artifact_id id) f t k in
    elim (Option-cases (select (artifact_id id) t)) [
      | inl n ↦ absurd (ground (arith, u, n, h))
      | inr (r, n) ↦
          let m = select-eq-some (artifact_id id) t {r = r} n in
          let q : a ≡ f r = ground (arith, u, n, m, h) in (r, q)
    ]

-- The artifact that is read back has what was written.
pin_inv :
    (io : Io) (id key : String) (size : ℕ) (hash content_type : String) (db : ReleaseTables)
    {a : ReleaseArtifact}
    → (pin io id key size hash content_type db).1 ≡ ok a
    → (a.file_key ≡ key) × (a.file_size ≡ size) × (a.sha256 ≡ hash)
unfolding pin update_artifact_file find_artifact
pin_inv io id key size hash content_type db {a = a} h =
    let f = with_file key size hash content_type in
    let p = when_draft io id (update (artifact_id id) f) db in
    elim (Option-cases p.1) [
      | inr (e, n) ↦ absurd (ground (arith, n, h))
      | inl n ↦
          let w = when_draft_inv io id (update (artifact_id id) f) db n in
          elim (Option-cases (select (artifact_id id) p.0.artifacts)) [
            | inl s ↦ absurd (ground (arith, n, s, h))
            | inr (b, s) ↦
                let q : b ≡ a = ground (arith, n, s, h) in
                let (r, x) =
                  updated id f db.artifacts (λ r. refl) {a = b}
                    (ap (select (artifact_id id)) (sym w) ∙ s) in
                let y : a ≡ f r = sym q ∙ x in
                (
                  ap (λ (a : ReleaseArtifact). a.file_key) y,
                  ap (λ (a : ReleaseArtifact). a.file_size) y,
                  ap (λ (a : ReleaseArtifact). a.sha256) y,
                )
          ]
    ]

hash_inv :
    (c : ObjectCode) (key : String) (size : ℕ) (b : BodyAnswer) {h : String}
    → c.body key ≡ b
    → compute_artifact_sha256 c key size ≡ hash_of h
    → (content : String) × (c.body key ≡ body_of content)
      × (h ≡ c.hash content)
      × (size ≡ c.bytes content)
unfolding compute_artifact_sha256
hash_inv c key size no_body e q = absurd (ground (arith, e, q))
hash_inv c key size (body_error t) e q = absurd (ground (arith, e, q))
hash_inv c key size (body_of content) {h = h} e q =
    let x : h ≡ c.hash content = ground (arith, e, q) in
    let y : size ≡ c.bytes content = ground (arith, e, q) in (content, e, x, y)

Pins-hashed :
    (io : Io) (c : ObjectCode) (input : FinalizeArtifactInput) (x : ReleaseArtifact) (size : ℕ)
    (head_type : String) (r : HashAnswer) (db : ReleaseTables) (a : ReleaseArtifact)
    → compute_artifact_sha256 c x.file_key size ≡ r
    → (hashed io c input x size head_type r db).1 ≡ ok a
    → Pins c input a
Pins-hashed io c input x size head_type no_content db a e h = absurd (cc)
Pins-hashed io c input x size head_type (hash_error t) db a e h = absurd (cc)
Pins-hashed io c input x size head_type (hash_of v) db a e h =
    let (content, b, s, z) = hash_inv c x.file_key size _ {h = v} refl e in
    elim (Bool-cases (not (input.expected_sha256 == "") && not (input.expected_sha256 == v))) [
      | inl n ↦ absurd (ground (arith, n, h))
      | inr n ↦
          let h' : (pin io x.id x.file_key size v (final_type c head_type x) db).1 ≡ ok a =
            ground (arith, n, h) in
          let (k, l, m) = pin_inv io x.id x.file_key size v _ db {a = a} h' in
          (
            content,
            ap c.body k ∙ b,
            m ∙ s,
            l ∙ z,
            λ q. ground (arith, n, q, eq_iff input.expected_sha256 v) ∙ sym m,
          )
    ]

Pins-found :
    (io : Io) (c : ObjectCode) (input : FinalizeArtifactInput) (db : ReleaseTables)
    (a x : ReleaseArtifact) (k : HeadAnswer)
    → (not (input.expected_sha256 == "") && not (c.is_sha256 input.expected_sha256)) ≡ false
    → find_artifact (io 3) input.artifact_id db ≡ found x
    → c.head x.file_key ≡ k
    → (finalize_artifact io c input db).1 ≡ ok a
    → Pins c input a
unfolding finalize_artifact
Pins-found io c input db a x no_object n f e = rw (finalize_artifact, n, f, e) (λ h. absurd (cc))
Pins-found io c input db a x (head_error t) n f e =
    rw (finalize_artifact, n, f, e) (λ h. absurd (cc))
Pins-found io c input db a x (head_of size head_type) n f e =
    elim (Bool-cases (ltb max_finalize_read_size size)) [
      | inl g ↦ rw (finalize_artifact, n, f, e, g) (λ h. absurd (cc))
      | inr g ↦
          rw (finalize_artifact, n, f, e, g) (Pins-hashed io c input x size head_type _ db a refl)
    ]

Pins-lookup :
    (io : Io) (c : ObjectCode) (input : FinalizeArtifactInput) (db : ReleaseTables)
    (a : ReleaseArtifact) (r : Found ReleaseArtifact)
    → (not (input.expected_sha256 == "") && not (c.is_sha256 input.expected_sha256)) ≡ false
    → find_artifact (io 3) input.artifact_id db ≡ r
    → (finalize_artifact io c input db).1 ≡ ok a
    → Pins c input a
unfolding finalize_artifact
Pins-lookup io c input db a no_rows n f = rw (finalize_artifact, n, f) (λ h. absurd (cc))
Pins-lookup io c input db a failed n f = rw (finalize_artifact, n, f) (λ h. absurd (cc))
Pins-lookup io c input db a (found x) n f = Pins-found io c input db a x _ n f refl

-- The server is the authority on the hash: an upload that is finalized has the size and the SHA-256 of
-- the content that is in storage, and the hash that the caller expected, if it named one.
pub finalize_artifact-Pins :
    (io : Io) (c : ObjectCode) (input : FinalizeArtifactInput) (db : ReleaseTables)
    (a : ReleaseArtifact)
    → (finalize_artifact io c input db).1 ≡ ok a
    → Pins c input a
unfolding finalize_artifact
finalize_artifact-Pins io c input db a =
    elim (Bool-cases
      (not (input.expected_sha256 == "") && not (c.is_sha256 input.expected_sha256))) [
        | inl n ↦ rw (finalize_artifact, n) (λ h. absurd (cc))
        | inr n ↦ Pins-lookup io c input db a _ n refl
      ]
