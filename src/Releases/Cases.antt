-- ===== src/Releases/Cases.antt =====
-- When a statement of internal/store/release.go changes the tables, and to what.
use saas_admin.Prelude.{
  ℕ, String, ◌≡◌, inl, inr, Bool, true, ◌&&◌, none, some, List, ◌∷◌, Bool-cases, Option-cases,
}
use saas_admin.Prelude.Table.{select, update, delete}
use saas_admin.Database.{Io}
use saas_admin.Releases.{
  Release, ReleaseArtifact, ReleaseTables, ReleaseError, draft, is_draft, has_id, of_release,
  with_status, taken_by, create_release, publish_release, delete_release, publishable,
  published_now, update_release,
}
use saas_admin.Releases.Artifacts.{
  same_artifact, create_artifact, clear_release_signatures, when_draft, without_signature,
  artifact_release,
}

module _ {κ} (P : ReleaseTables → Type κ) (io : Io) (db : ReleaseTables) (same : P db) where
  pub create_release-cases :
      (r : Release)
      → (select (taken_by r) db.releases ≡ none
          → P (record db { releases = record r { status = draft } ∷ db.releases }))
      → P (create_release io r db).0
  unfolding create_release
  create_release-cases r h = elim (Bool-cases (io 0)) [
    | inr e ↦ rw (create_release, e) same
    | inl e ↦ elim (Option-cases (select (taken_by r) db.releases)) [
      | inl n ↦ rw (create_release, e, n) (h n)
      | inr s ↦ rw (create_release, e, s.1) same
    ]
  ]

  pub publish_release-cases :
      (now : ℕ) (id : String) (require : Bool) (key : String)
      → P (record db {
        releases = update (publishable require key db.artifacts id) (published_now now) db.releases;
      })
      → P (publish_release io now id require key db).0
  unfolding publish_release
  publish_release-cases now id require key h = elim (Bool-cases (io 0)) [
    | inr e ↦ rw (publish_release, e) same
    | inl e ↦ elim (Option-cases (select (publishable require key db.artifacts id) db.releases)) [
      | inl n ↦ rw (publish_release, e, n) same
      | inr s ↦ rw (publish_release, e, s.1) h
    ]
  ]

  pub update_release-cases :
      (p : Release → Bool) (f : Release → Release) (miss : ReleaseError)
      → P (record db { releases = update p f db.releases })
      → P (update_release io p f miss db).0
  update_release-cases p f miss h = elim (Bool-cases (io 0)) [
    | inr e ↦ rw e same
    | inl e ↦ elim (Option-cases (select p db.releases)) [
      | inl n ↦ rw (e, n) same
      | inr s ↦ rw (e, s.1) h
    ]
  ]

  pub delete_release-cases :
      (id : String)
      → ((r : Release)
          → select (has_id id) db.releases ≡ some r
          → is_draft r.status ≡ true
          → P (record {
            releases = delete (with_status is_draft id) db.releases;
            artifacts = delete (of_release id) db.artifacts;
          }))
      → P (delete_release io id db).0
  unfolding delete_release
  delete_release-cases id h = elim (Bool-cases (io 0)) [
    | inr e ↦ rw (delete_release, e) same
    | inl e ↦ elim (Option-cases (select (has_id id) db.releases)) [
      | inl n ↦ rw (delete_release, e, n) same
      | inr (r, s) ↦ elim (Bool-cases (is_draft r.status)) [
        | inr d ↦ rw (delete_release, e, s, d) same
        | inl d ↦ elim (Bool-cases (io 1 && (io 2 && io 3))) [
          | inl w ↦ rw (delete_release, e, s, d, w) (h r s d)
          | inr w ↦ rw (delete_release, e, s, d, w) same
        ]
      ]
    ]
  ]

  pub create_artifact-cases :
      (a : ReleaseArtifact)
      → ((r : Release)
          → select (has_id a.release_id) db.releases ≡ some r
          → is_draft r.status ≡ true
          → select (same_artifact a) db.artifacts ≡ none
          → P (record db { artifacts = a ∷ db.artifacts }))
      → P (create_artifact io a db).0
  unfolding create_artifact
  create_artifact-cases a h = elim (Bool-cases (io 0)) [
    | inr e ↦ rw (create_artifact, e) same
    | inl e ↦ elim (Option-cases (select (has_id a.release_id) db.releases)) [
      | inl n ↦ rw (create_artifact, e, n) same
      | inr (r, s) ↦ elim (Bool-cases (is_draft r.status)) [
        | inr d ↦ rw (create_artifact, e, s, d) same
        | inl d ↦ elim (Bool-cases (io 1)) [
          | inr w ↦ rw (create_artifact, e, s, d, w) same
          | inl w ↦ elim (Option-cases (select (same_artifact a) db.artifacts)) [
            | inr t ↦ rw (create_artifact, e, s, d, w, t.1) same
            | inl n ↦ elim (Bool-cases (io 2)) [
              | inr c ↦ rw (create_artifact, e, s, d, w, n, c) same
              | inl c ↦ rw (create_artifact, e, s, d, w, n, c) (h r s d n)
            ]
          ]
        ]
      ]
    ]
  ]

  pub when_draft-cases :
      (id : String) (write : List ReleaseArtifact → List ReleaseArtifact)
      → ((p : ReleaseArtifact × Release)
          → artifact_release id db ≡ some p
          → is_draft p.1.status ≡ true
          → P (record db { artifacts = write db.artifacts }))
      → P (when_draft io id write db).0
  when_draft-cases id write h = elim (Bool-cases (io 0)) [
    | inr e ↦ rw e same
    | inl e ↦ elim (Option-cases (artifact_release id db)) [
      | inl n ↦ rw (e, n) same
      | inr (p, s) ↦ elim (Bool-cases (is_draft p.1.status)) [
        | inr d ↦ rw (e, s, d) same
        | inl d ↦ elim (Bool-cases (io 1 && io 2)) [
          | inl w ↦ rw (e, s, d, w) (h p s d)
          | inr w ↦ rw (e, s, d, w) same
        ]
      ]
    ]
  ]

  pub clear_release_signatures-cases :
      (id : String)
      → ((r : Release)
          → select (has_id id) db.releases ≡ some r
          → is_draft r.status ≡ true
          → P (record db { artifacts = update (of_release id) without_signature db.artifacts }))
      → P (clear_release_signatures io id db).0
  unfolding clear_release_signatures
  clear_release_signatures-cases id h = elim (Bool-cases (io 0)) [
    | inr e ↦ rw (clear_release_signatures, e) same
    | inl e ↦ elim (Option-cases (select (has_id id) db.releases)) [
      | inl n ↦ rw (clear_release_signatures, e, n) same
      | inr (r, s) ↦ elim (Bool-cases (is_draft r.status)) [
        | inr d ↦ rw (clear_release_signatures, e, s, d) same
        | inl d ↦ elim (Bool-cases (io 1 && io 2)) [
          | inl w ↦ rw (clear_release_signatures, e, s, d, w) (h r s d)
          | inr w ↦ rw (clear_release_signatures, e, s, d, w) same
        ]
      ]
    ]
  ]
