-- ===== src/Reqmgr/Disk/Laws.antt =====
-- Saving and reading operations in pkg/reqmgr/disk_store.go.
use tip_olg_ucentral_client.Prelude.{
  ℕ, String, true, false, not, Option, none, some, List, lookup, insert, remove, lookup-insert,
  lookup-remove, str_eq, eq_refl, if_of_true, either, pass, ◌≡◌, refl, ◌∙◌, ◌⊎◌, inl, inr, arith,
  Bool-cases,
}
use tip_olg_ucentral_client.Reqmgr.Store.{PersistentOperation}
use tip_olg_ucentral_client.Reqmgr.Disk.{
  StoreError, write_failed, sync_failed, close_failed, rename_failed, sync_dir, Disk,
  StoreLibraries, SaveIo, file_name, temp_name, get_path, write_file, remove_file, clean_up,
  save_as, save, read_operation, get, DeleteIo, delete_path_durably, delete,
}

-- Every file but the temporary one is as it was, or it is the target with all of the new content.
abbrev pub IsAtomic : String → String → List ℕ → Disk → Disk → Type 0
IsAtomic target temp content old new =
    (name : String)
    → str_eq temp name ≡ false
    → (lookup name new.files ≡ lookup name old.files)
      ⊎ ((str_eq target name ≡ true) × (lookup name new.files ≡ some content))

abbrev Outcome : Type 0
Outcome = Disk × Option StoreError

module _ (io : SaveIo) (target temp : String) (content : List ℕ) (disk : Disk) where
  abbrev Kept : Outcome → Type 0
  Kept r = IsAtomic target temp content disk r.0

  undone-IsAtomic :
      (written : List ℕ) (e : StoreError)
      → Kept (clean_up io temp (write_file temp written disk), some e)
  undone-IsAtomic written e name apart = inl (
      ground (
        arith,
        lookup-insert temp name written disk.files,
        lookup-remove temp name (insert temp written disk.files),
      ))

  renamed-IsAtomic :
      (e : Option StoreError)
      → Kept (write_file target content (remove_file temp (write_file temp content disk)), e)
  renamed-IsAtomic e name apart = elim (Bool-cases (str_eq target name)) [
    | inl t ↦ inr (t, lookup-insert target name content _ ∙ if_of_true (str_eq target name) _ _ t)
    | inr t ↦ inl (
        ground (
          arith,
          lookup-insert target name content (remove temp (insert temp content disk.files)),
          lookup-remove temp name (insert temp content disk.files),
          lookup-insert temp name content disk.files,
        ))
  ]

  save_as-IsAtomic : Kept (save_as io target temp content disk)
  unfolding save_as
  save_as-IsAtomic =
      either Kept (not io.opens) _ _ (λ name apart. inl refl)
        (either Kept (not io.writes) _ _ (undone-IsAtomic io.written write_failed) (
          either Kept (not io.syncs) _ _ (undone-IsAtomic content sync_failed) (
            either Kept (not io.closes) _ _ (undone-IsAtomic content close_failed) (
              either Kept (not io.renames) _ _ (undone-IsAtomic content rename_failed)
                (renamed-IsAtomic (sync_dir io.opens_dir io.syncs_dir))))))

-- However the calls of `Save` to the operating system fail, no file but the temporary one is left in
-- part: each is as it was before, or it is the operation's own file with all of its new content.
pub save-IsAtomic :
    (lib : StoreLibraries) (io : SaveIo) (op : PersistentOperation) (content : List ℕ) (disk : Disk)
    → lib.marshal op ≡ some content
    → IsAtomic
        (file_name op.operation_id)
        (temp_name io op.operation_id)
        content
        disk
        (save lib io (some op) disk).0
unfolding save get_path
save-IsAtomic lib io op content disk m =
    let Kept = λ (r : Outcome).
      IsAtomic (file_name op.operation_id) (temp_name io op.operation_id) content disk r.0 in
    rw (m, save)
      (either Kept io.has_ended _ _ (λ name apart. inl refl)
        (elim (Bool-cases (lib.is_uuid op.operation_id)) [
          | inl u ↦
              rw (u, get_path)
                (save_as-IsAtomic io (file_name op.operation_id) (temp_name io op.operation_id)
                  content disk)
          | inr u ↦ rw (u, get_path) (λ name apart. inl refl)
        ]))

save_as-saves :
    (io : SaveIo) (target temp : String) (content : List ℕ) (disk : Disk)
    → (save_as io target temp content disk).1 ≡ none
    → lookup target (save_as io target temp content disk).0.files ≡ some content
unfolding save_as
save_as-saves io target temp content disk e = ground (
  arith,
  lookup-insert target target content (remove temp (insert temp content disk.files)),
  eq_refl target,
)

save-found :
    (lib : StoreLibraries) (io : SaveIo) (op : PersistentOperation) (content : List ℕ) (disk : Disk)
    → lib.marshal op ≡ some content
    → (save lib io (some op) disk).1 ≡ none
    → (lib.is_uuid op.operation_id ≡ true)
      × (lookup (file_name op.operation_id) (save lib io (some op) disk).0.files ≡ some content)
unfolding save get_path save_as
save-found lib io op content disk m e = elim (Bool-cases io.has_ended) [
  | inl c ↦ let f = rw (c, save) at e in cc
  | inr c ↦ elim (Bool-cases (lib.is_uuid op.operation_id)) [
    | inl v ↦
        let f = rw (c, m, v, save, get_path) at e in
        (
          v,
          rw (c, m, v, save, get_path)
              (save_as-saves io (file_name op.operation_id) (temp_name io op.operation_id) content
                disk f),
        )
    | inr v ↦ let f = rw (c, m, v, save, get_path) at e in cc
  ]
]

delete-gone :
    (lib : StoreLibraries) (io : DeleteIo) (operation_id : String) (disk : Disk)
    → (delete lib io operation_id disk).1 ≡ none
    → (lib.is_uuid operation_id ≡ true)
      × (lookup (file_name operation_id) (delete lib io operation_id disk).0.files ≡ none)
unfolding delete get_path delete_path_durably
delete-gone lib io operation_id disk e = elim (Bool-cases io.has_ended) [
  | inl c ↦ let f = rw (c, delete) at e in cc
  | inr c ↦ elim (Bool-cases (lib.is_uuid operation_id)) [
    | inl v ↦ elim (Bool-cases (not io.removes)) [
      | inl r ↦ let f = rw (c, v, r, delete, get_path, delete_path_durably) at e in cc
      | inr r ↦ (
        v,
        rw (c, v, r, delete, get_path, delete_path_durably)
            (lookup-remove (file_name operation_id) (file_name operation_id) disk.files
              ∙ if_of_true (str_eq (file_name operation_id) (file_name operation_id)) _ _
                  (eq_refl (file_name operation_id))),
      )
    ]
    | inr v ↦ let f = rw (c, v, delete, get_path) at e in cc
  ]
]

read :
    (lib : StoreLibraries) (operation_id : String) (disk : Disk) (found : Option (List ℕ))
    → lib.is_uuid operation_id ≡ true
    → lookup (file_name operation_id) disk.files ≡ found
    → get lib false true operation_id disk ≡ read_operation lib true found
unfolding get get_path
read lib operation_id disk found v f = rw (v, get, get_path, f) refl

-- An operation that was saved without an error is read back as it was saved, if the decoding of its
-- encoding yields it again.
pub get-save :
    (lib : StoreLibraries) (io : SaveIo) (op : PersistentOperation) (content : List ℕ) (disk : Disk)
    → lib.marshal op ≡ some content
    → lib.unmarshal content ≡ some op
    → (save lib io (some op) disk).1 ≡ none
    → get lib false true op.operation_id (save lib io (some op) disk).0 ≡ pass (some op)
unfolding read_operation
get-save lib io op content disk m u e =
    let (v, found) = save-found lib io op content disk m e in
    read lib op.operation_id _ (some content) v found ∙ rw (u, read_operation) refl

-- An operation that was deleted without an error is not found again.
pub get-delete :
    (lib : StoreLibraries) (io : DeleteIo) (operation_id : String) (disk : Disk)
    → (delete lib io operation_id disk).1 ≡ none
    → get lib false true operation_id (delete lib io operation_id disk).0 ≡ pass none
unfolding read_operation
get-delete lib io operation_id disk e =
    let (v, gone) = delete-gone lib io operation_id disk e in read lib operation_id _ none v gone
