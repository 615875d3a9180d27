-- ===== src/Persistence/ReferenceStore/Appended.antt =====
-- The journal of references only grows: what it holds for an attempt never changes.
use mathlib.Core.Path.{subst}
use nexus_vector_keeperhub.Prelude.{
  String, ◌≡◌, refl, sym, ap, ◌∙◌, ◌⊎◌, inl, inr, true, Option, none, some, List, [], ◌∷◌, ◌==◌,
  arith, eq_iff, eq_refl, find, Bool-cases, Option-cases,
}
use nexus_vector_keeperhub.Errors.{ErrorClass, Code, ok, Result-cases}
use nexus_vector_keeperhub.Clock.{utc, require_utc-cases}
use nexus_vector_keeperhub.Runtime.{Runtime}
use nexus_vector_keeperhub.Reference.{
  ProviderReference, make_reference, validate_attempt_id, validate_request_fingerprint,
  reference_text, normalize_provider_namespace, normalize_provider_reference,
}
use nexus_vector_keeperhub.Persistence.Database.{write-committed, write-keeps}
use nexus_vector_keeperhub.Persistence.ReferenceStore.{
  ReferenceRow, ReferenceDb, translate, same_reference, row_named, decode, load, insert_reference,
  create_operation, create,
}

abbrev row_for : String → List ReferenceRow → Option ReferenceRow
row_for id = find (λ (row : ReferenceRow). row.attempt_id == id)

abbrev content : ReferenceRow → ProviderReference
content row = record {
  attempt_id = row.attempt_id;
  provider_namespace = row.provider_namespace;
  request_fingerprint = row.request_fingerprint;
  provider_reference = row.provider_reference;
  created_at_utc = utc row.created_at;
}

-- A reference that was made from another one: its two texts in normal form.
pub record IsMadeFrom (rt : Runtime) (r s : ProviderReference) : Type 0 where
  pub attempt_id : s.attempt_id ≡ r.attempt_id
  pub request_fingerprint : s.request_fingerprint ≡ r.request_fingerprint
  pub provider_namespace : s.provider_namespace ≡ rt.nfc r.provider_namespace
  pub provider_reference : s.provider_reference ≡ rt.nfc r.provider_reference

-- What `create` has done where it returns `s`.
pub record Appended (rt : Runtime) (r : ProviderReference) (t : List ReferenceRow)
    (s : ProviderReference) (t' : List ReferenceRow) : Type 0 where
  pub shown : load rt r.attempt_id t' ≡ ok (some s)
  pub stored : (same_reference s r ≡ true) ⊎ IsMadeFrom rt r s
  pub grown :
      (t' ≡ t)
      ⊎ ((load rt r.attempt_id t ≡ ok none)
          × ((row : ReferenceRow) × (row.attempt_id ≡ r.attempt_id)
              × (row_named row.provider_namespace row.provider_reference t ≡ none)
              × (t' ≡ row ∷ t)))

module _ (rt : Runtime) where
  reference_text-nfc :
      (v : String) (c : Code) {u : String} → reference_text rt v c ≡ ok u → u ≡ rt.nfc v
  unfolding reference_text
  reference_text-nfc v c h = ground arith

  pub make_reference-IsMadeFrom :
      (r : ProviderReference) {s : ProviderReference}
      → make_reference rt r ≡ ok s
      → IsMadeFrom rt r s
  unfolding make_reference normalize_provider_namespace normalize_provider_reference
  make_reference-IsMadeFrom r {s} h = elim (Result-cases (validate_attempt_id r.attempt_id)) [
    | inl (e, bad) ↦ absurd (ground (arith, h, bad))
    | inr (a, attempt) ↦ elim (Result-cases (validate_request_fingerprint r.request_fingerprint)) [
      | inl (e, bad) ↦ absurd (ground (arith, h, attempt, bad))
      | inr (f, fingerprint) ↦
          elim (Result-cases
            (reference_text rt r.provider_namespace Code.invalid_provider_namespace)) [
              | inl (e, bad) ↦ absurd (ground (arith, h, attempt, fingerprint, bad))
              | inr (n, namespace) ↦
                  elim (Result-cases
                    (reference_text rt r.provider_reference Code.invalid_provider_reference)) [
                      | inl (e, bad) ↦
                          absurd (ground (arith, h, attempt, fingerprint, namespace, bad))
                      | inr (p, reference) ↦
                          elim (require_utc-cases ErrorClass.reference r.created_at_utc) [
                            | inr (e, bad) ↦
                                absurd (
                                  ground
                                    (arith, h, attempt, fingerprint, namespace, reference, bad))
                            | inl timely ↦
                                let same : s
                                    ≡ record r { provider_namespace = n; provider_reference = p } =
                                  ground (
                                    arith, h, attempt, fingerprint, namespace, reference, timely,
                                  ) in
                                record {
                                  attempt_id = ap (λ (x : ProviderReference). x.attempt_id) same;
                                  request_fingerprint =
                                      ap (λ (x : ProviderReference). x.request_fingerprint) same;
                                  provider_namespace =
                                      ap (λ (x : ProviderReference). x.provider_namespace) same
                                      ∙ reference_text-nfc r.provider_namespace
                                          Code.invalid_provider_namespace namespace;
                                  provider_reference =
                                      ap (λ (x : ProviderReference). x.provider_reference) same
                                      ∙ reference_text-nfc r.provider_reference
                                          Code.invalid_provider_reference reference;
                                }
                          ]
                    ]
            ]
    ]
  ]

  decode-content :
      (row : ReferenceRow) {s : ProviderReference}
      → decode rt (some row) ≡ ok (some s)
      → IsMadeFrom rt (content row) s
  decode-content row {s} h = elim (Result-cases (make_reference rt (content row))) [
    | inl (e, bad) ↦ absurd (ground (arith, h, bad))
    | inr (r, made) ↦
        subst (λ x. IsMadeFrom rt (content row) x) (ground (arith, h, made))
          (make_reference-IsMadeFrom (content row) made)
  ]

  inserted-content :
      (row : ReferenceRow) (t : List ReferenceRow) {s : ProviderReference}
      → load rt row.attempt_id (row ∷ t) ≡ ok (some s)
      → IsMadeFrom rt (content row) s
  unfolding load
  inserted-content row t {s} h =
      decode-content row {s = s} (ground (arith, h, eq_refl row.attempt_id))

  insert_reference-Appended :
      (r : ProviderReference) (t : List ReferenceRow) {s : ProviderReference}
      {t' : List ReferenceRow}
      → load rt r.attempt_id t ≡ ok none
      → insert_reference rt r t ≡ ok (s, t')
      → Appended rt r t s t'
  unfolding insert_reference
  insert_reference-Appended r t {s} {t'} new h =
      elim (Option-cases (row_named r.provider_namespace r.provider_reference t)) [
        | inr (x, taken) ↦ absurd (ground (arith, h, taken))
        | inl unused ↦ elim (require_utc-cases ErrorClass.reference_store r.created_at_utc) [
          | inr (e, bad) ↦ absurd (ground (arith, h, unused, bad))
          | inl timely ↦
              let row : ReferenceRow = record {
                attempt_id = r.attempt_id;
                provider_namespace = r.provider_namespace;
                request_fingerprint = r.request_fingerprint;
                provider_reference = r.provider_reference;
                created_at = r.created_at_utc.instant;
              } in
              elim (Result-cases (load rt r.attempt_id (row ∷ t))) [
                | inl (e, bad) ↦ absurd (ground (arith, h, unused, timely, bad))
                | inr (none, lost) ↦ absurd (ground (arith, h, unused, timely, lost))
                | inr (some x, loaded) ↦
                    let same : s ≡ x = ground (arith, h, unused, timely, loaded) in
                    let table : t' ≡ row ∷ t = ground (arith, h, unused, timely, loaded) in
                    let made = inserted-content row t loaded in
                    record {
                      shown = rw (table, same) loaded;
                      stored = inr (
                          subst (λ y. IsMadeFrom rt r y) (sym same)
                            (record {
                              attempt_id = made.attempt_id;
                              request_fingerprint = made.request_fingerprint;
                              provider_namespace = made.provider_namespace;
                              provider_reference = made.provider_reference;
                            }));
                      grown = inr (new, (row, refl, unused, table));
                    }
              ]
        ]
      ]

  create_operation-Appended :
      (r : ProviderReference) (t : List ReferenceRow) {s : ProviderReference}
      {t' : List ReferenceRow}
      → create_operation rt r t ≡ ok (s, t')
      → Appended rt r t s t'
  unfolding create_operation
  create_operation-Appended r t {s} {t'} h = elim (Result-cases (load rt r.attempt_id t)) [
    | inl (e, bad) ↦ absurd (ground (arith, h, bad))
    | inr (none, new) ↦ insert_reference-Appended r t {s = s} {t' = t'} new (ground (arith, h, new))
    | inr (some x, old) ↦ elim (Bool-cases (same_reference x r)) [
      | inr differs ↦ absurd (ground (arith, h, old, differs))
      | inl agrees ↦
          let same : s ≡ x = ground (arith, h, old, agrees) in
          let kept : t' ≡ t = ground (arith, h, old, agrees) in
          record { shown = rw (kept, same) old; stored = inl (rw same agrees); grown = inl kept }
    ]
  ]

  pub create-Appended :
      (r : ProviderReference) (db : ReferenceDb) {s : ProviderReference}
      → (create rt r db).0 ≡ ok s
      → Appended rt r db.tables s (create rt r db).1.tables
  unfolding create
  create-Appended r db {s} h =
      create_operation-Appended r db.tables
        (write-committed ErrorClass.reference_store translate (create_operation rt r) db h)

  row_for-appended :
      (r : ProviderReference) (t t' : List ReferenceRow) (id : String) (old : ProviderReference)
      → load rt id t ≡ ok (some old)
      → (t' ≡ t)
        ⊎ ((load rt r.attempt_id t ≡ ok none)
            × ((row : ReferenceRow) × (row.attempt_id ≡ r.attempt_id)
                × (row_named row.provider_namespace row.provider_reference t ≡ none)
                × (t' ≡ row ∷ t)))
      → load rt id t' ≡ ok (some old)
  unfolding load
  row_for-appended r t t' id old h (inl same) = rw same h
  row_for-appended r t t' id old h (inr (new, (row, owner, unused, table))) =
      elim (Bool-cases (row.attempt_id == id)) [
        | inr other ↦ rw (table, other) h
        | inl clash ↦
            let is_id : r.attempt_id ≡ id =
              sym owner ∙ ground (arith, clash, eq_iff row.attempt_id id) in
            absurd (ground (arith, new, h, is_id))
      ]

  -- Whatever `create` is called with, and whatever comes of it, the reference that an attempt had stays
  -- as it was.
  pub create-append_only :
      (r : ProviderReference) (db : ReferenceDb) (id : String) (old : ProviderReference)
      → load rt id db.tables ≡ ok (some old)
      → load rt id (create rt r db).1.tables ≡ ok (some old)
  unfolding create
  create-append_only r db id old h =
      write-keeps (λ t. load rt id t ≡ ok (some old)) ErrorClass.reference_store translate
        (create_operation rt r) db
        (λ s t' done.
          row_for-appended r db.tables t' id old h
            (create_operation-Appended r db.tables done).grown)
        h

-- No two rows have one name of the provider.
abbrev pub NamesDistinct : List ReferenceRow → Type 0
NamesDistinct [] = Unit
NamesDistinct (row ∷ t) =
    (row_named row.provider_namespace row.provider_reference t ≡ none) × NamesDistinct t

-- `create` never gives one name of the provider to two attempts.
pub create-NamesDistinct :
    (rt : Runtime) (r : ProviderReference) (db : ReferenceDb)
    → NamesDistinct db.tables
    → NamesDistinct (create rt r db).1.tables
unfolding create
create-NamesDistinct rt r db h =
    write-keeps NamesDistinct ErrorClass.reference_store translate (create_operation rt r) db
      (λ s t' done. elim (create_operation-Appended rt r db.tables {s = s} {t' = t'} done).grown [
        | inl same ↦ subst NamesDistinct (sym same) h
        | inr (new, (row, owner, unused, table)) ↦ subst NamesDistinct (sym table) (unused, h)
      ])
      h
