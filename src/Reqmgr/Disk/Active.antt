-- ===== src/Reqmgr/Disk/Active.antt =====
-- What `GetActive` of pkg/reqmgr/disk_store.go reports.
use tip_olg_ucentral_client.Prelude.{
  ℕ, suc, zero, String, true, not, ◌&&◌, ◌||◌, Option, none, some, List, [], ◌∷◌, ◌++◌, length,
  take, lookup, lookup-remove, str_eq, eq_iff, ltb, either, Checked, pass, fault, ◌≡◌, refl, subst,
  arith, Option-cases, inl, inr,
}
use tip_olg_ucentral_client.Reqmgr.Store.{PersistentOperation}
use tip_olg_ucentral_client.Reqmgr.Disk.{StoreError, Disk, StoreLibraries, file_name}
use tip_olg_ucentral_client.Reqmgr.Disk.Scan.{
  ScanIo, quarantine, Content, corrupt, inactive, active_operation, classify_operation, classify,
  Scan, scan_content, scan_data, scan_entry, scan_entries, limited, names_of, scanned, get_active,
}

abbrev pub Each : (PersistentOperation → Type 0) → List PersistentOperation → Type 0
Each P [] = Unit
Each P (op ∷ ops) = P op × Each P ops

Each-append :
    (P : PersistentOperation → Type 0) (ops : List PersistentOperation) (op : PersistentOperation)
    → Each P ops
    → P op
    → Each P (ops ++ (op ∷ []))
Each-append P [] op e p = (p, tt)
Each-append P (o ∷ ops) op (q, e) p = (q, Each-append P ops op e p)

Each-take :
    (P : PersistentOperation → Type 0) (n : ℕ) (ops : List PersistentOperation)
    → Each P ops
    → Each P (take n ops)
Each-take P zero ops e = tt
Each-take P (suc n) [] e = tt
Each-take P (suc n) (o ∷ ops) (q, e) = (q, Each-take P n ops e)

-- A sort loses the order only.
abbrev pub KeepsEach : (List PersistentOperation → List PersistentOperation) → Type 1
KeepsEach sort =
    (P : PersistentOperation → Type 0) (ops : List PersistentOperation)
    → Each P ops
    → Each P (sort ops)

module _ (lib : StoreLibraries) (io : ScanIo) (old : Disk) where
  -- The operation is active, its fields are well formed, and a file of its own name holds it.
  pub record IsStored (op : PersistentOperation) : Type 0 where
    pub active : op.active ≡ true
    pub identified : lib.is_uuid op.operation_id ≡ true
    pub dated : lib.is_time op.updated_at ≡ true
    pub content : List ℕ
    pub in_file : lookup (file_name op.operation_id) old.files ≡ some content
    pub decoded : lib.unmarshal content ≡ some op

  -- No file has appeared, and what was found is stored.
  abbrev IsPart : Scan → Type 0
  IsPart s =
      ((name : String) (content : List ℕ)
        → lookup name s.0.files ≡ some content
        → lookup name old.files ≡ some content)
      × Each IsStored s.1

  classify_operation-inv :
      (name : String) (found op : PersistentOperation)
      → classify_operation lib name found ≡ active_operation op
      → (found ≡ op)
        × (lib.is_uuid found.operation_id ≡ true)
        × (str_eq name (file_name found.operation_id) ≡ true)
        × (lib.is_time found.updated_at ≡ true)
        × (found.active ≡ true)
  unfolding classify_operation
  classify_operation-inv name found op h = ground arith

  classify-inv :
      (name : String) (content : List ℕ) (op : PersistentOperation)
      → classify lib name content ≡ active_operation op
      → lookup name old.files ≡ some content
      → IsStored op
  unfolding classify
  classify-inv name content op h there = elim (Option-cases (lib.unmarshal content)) [
    | inl e ↦ let f = rw (e, classify) at h in cc
    | inr (found, e) ↦
        let (same, u, n, t, a) = classify_operation-inv name found op (rw (e, classify) at h) in
        subst IsStored same (record {
          active = a;
          identified = u;
          dated = t;
          content = content;
          in_file =
              subst (λ k. lookup k old.files ≡ some content)
                ((eq_iff name (file_name found.operation_id)).0 n) there;
          decoded = e;
        })
  ]

  scan_content-IsPart :
      (name : String) (content : List ℕ) (k : Content) (s : Scan)
      → classify lib name content ≡ k
      → lookup name s.0.files ≡ some content
      → IsPart s
      → IsPart (scan_content io name content k s)
  unfolding scan_content quarantine
  scan_content-IsPart name content corrupt (disk, ops) q there (sub, each) =
      ((λ n c h. sub n c (ground (arith, lookup-remove name n disk.files))), each)
  scan_content-IsPart name content inactive (disk, ops) q there h = h
  scan_content-IsPart name content (active_operation op) (disk, ops) q there (sub, each) = (
    sub,
    Each-append IsStored ops op each (classify-inv name content op q (sub name content there)),
  )

  scan_data-IsPart :
      (name : String) (found : Option (List ℕ)) (s : Scan)
      → lookup name s.0.files ≡ found
      → IsPart s
      → IsPart (scan_data lib io name found s)
  scan_data-IsPart name none s q h = h
  scan_data-IsPart name (some content) s q h =
      either IsPart (io.reads name) _ _ (scan_content-IsPart name content _ s refl q h) h

  scan_entry-IsPart : (name : String) (s : Scan) → IsPart s → IsPart (scan_entry lib io name s)
  unfolding scan_entry
  scan_entry-IsPart name s h =
      either IsPart (io.is_dir name || not (lib.has_json_suffix name)) _ _ h
        (scan_data-IsPart name _ s refl h)

  abbrev HoldsStored : Disk × Option (List PersistentOperation) → Type 0
  HoldsStored (disk, none) = Unit
  HoldsStored (disk, some ops) = Each IsStored ops

  scan_entries-HoldsStored :
      (names : List String) (s : Scan) → IsPart s → HoldsStored (scan_entries lib io names s)
  unfolding scan_entries
  scan_entries-HoldsStored [] (disk, ops) (sub, each) = each
  scan_entries-HoldsStored (name ∷ names) s h =
      either HoldsStored (io.ended_at name) _ _ tt
        (scan_entries-HoldsStored names _ (scan_entry-IsPart name s h))

  limited-IsStored :
      (limit : ℕ) (ops : List PersistentOperation)
      → Each IsStored ops
      → Each IsStored (limited limit ops)
  limited-IsStored limit ops e =
      either (Each IsStored) (ltb 0 limit && ltb limit (length ops)) _ _
        (Each-take IsStored limit ops e) e

  abbrev Reports : Disk × Checked StoreError (List PersistentOperation) → Type 0
  Reports (disk, fault e) = Unit
  Reports (disk, pass ops) = Each IsStored ops

  scanned-Reports :
      (limit : ℕ) (r : Disk × Option (List PersistentOperation))
      → KeepsEach lib.sort_newest
      → HoldsStored r
      → Reports (scanned lib limit r)
  scanned-Reports limit (disk, none) k h = tt
  scanned-Reports limit (disk, some ops) k h = limited-IsStored limit _ (k IsStored ops h)

  get_active-Reports :
      (limit : ℕ) → KeepsEach lib.sort_newest → Reports (get_active lib io limit old)
  unfolding get_active
  get_active-Reports limit k = either Reports io.has_ended _ _ tt (
      either Reports (not io.reads_dir) _ _ tt (
        scanned-Reports limit _ k
          (scan_entries-HoldsStored (names_of old.files) (old, []) ((λ n c h. h), tt))))

-- Every operation that `GetActive` reports is active, has a well-formed identifier and time, and is what
-- the file of its own name held before the call, whatever files are corrupt and whatever can be read or
-- moved, if the sort keeps to the operations it is given.
pub get_active-IsStored :
    (lib : StoreLibraries) (io : ScanIo) (limit : ℕ) (old new : Disk)
    (ops : List PersistentOperation)
    → KeepsEach lib.sort_newest
    → get_active lib io limit old ≡ (new, pass ops)
    → Each (IsStored lib io old) ops
get_active-IsStored lib io limit old new ops k e =
    subst (Reports lib io old) e (get_active-Reports lib io old limit k)
