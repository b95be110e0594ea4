-- ===== src/File/Checkin/Laws.antt =====
-- What the messages of storage/file/file.go and bstoken.go leave in files with no faults.
use Prim.Native.Nat.{◌%◌}
use nanomdm.Common.{
  ℕ, ◌+◌, ◌<◌, String, ◌≡◌, refl, ap, ◌∙◌, sym, ◌≢◌, inl, inr, not, Option, none, some, ◌==◌,
  ne_of_test, eq_iff, arith, All, [], ◌∷◌, if◌then◌else◌, Bool-cases,
}
use nanomdm.Common.Fault.{Result, ok, err}
use nanomdm.Common.Exec.{pure}
use nanomdm.Common.Decimal.{atoi, itoa, word, half}
use nanomdm.Common.Decimal.Bounds.{atoi-itoa}
use nanomdm.Mdm.Enroll.{Enrolled}
use nanomdm.Mdm.Checkin.{TokenUpdate}
use nanomdm.File.{FileStorage, dir_prefix, write_file, bump_numeric_file}
use nanomdm.File.Disk.{Contents, IsReliable, parent}
use nanomdm.File.Runs.{
  number, Sets, IsPlain, KeepsDirs, Sets-same, Sets-other, write_file-run, remove-run,
  read_numeric_file-run,
}
use nanomdm.File.Checkin.{
  tally_file, disabled_file, store_token_update, retrieve_token_update_tally,
}

abbrev value : Result ℕ → ℕ
value (ok n) = n
value (err e) = 0

module _ {S : Type 0} (fs : FileStorage S) (c : Contents S) (rel : IsReliable fs.os c) where
  abbrev file : String → String → S → Option String
  file id name s = c.find s (dir_prefix fs id name)

  -- a file that is written only if its contents are not empty leaves the other files
  optional_write :
      (id name v : String) (s : S)
      → parent name ≡ none
      → IsPlain fs c rel id s name
      → (s' : S) × ((if not (v == "") then write_file fs id name v else pure tt) s ≡ (ok tt, s'))
        × ((other : String) → name ≢ other → file id other s' ≡ file id other s)
        × KeepsDirs fs c rel id s s'
  optional_write id name v s bare plain = elim (Bool-cases (v == "")) [
    | inl e ↦ (s, rw e refl, (λ other n. refl), (λ other b. refl))
    | inr n ↦
        let (s', run, sets, keeps) = write_file-run fs c rel id name v s bare plain in
        (
          s',
          rw (n, run) refl,
          (λ other ne. Sets-other fs c rel id name other (some v) s s' ne sets),
          keeps,
        )
  ]

  bump-run :
      (id name : String) (s : S)
      → parent name ≡ none
      → IsPlain fs c rel id s name
      → (s' : S) × (bump_numeric_file fs id name s ≡ (ok tt, s'))
        × Sets fs c rel
            (dir_prefix fs id name)
            (some (itoa ((number (file id name s) + 1) % word)))
            s
            s'
        × KeepsDirs fs c rel id s s'
  unfolding bump_numeric_file
  bump-run id name s bare plain =
      let (s', run, sets, keeps) =
        write_file-run fs c rel id name (itoa ((number (file id name s) + 1) % word)) s bare
          plain in
      (s', rw (read_numeric_file-run fs c rel id name s plain, run) refl, sets, keeps)

  bumped : (n : ℕ) → n + 1 < half → atoi (itoa ((n + 1) % word)) ≡ n + 1
  bumped n lt =
      ap (λ (k : ℕ). atoi (itoa k)) {x = (n + 1) % word} {y = n + 1} (omega arith)
      ∙ atoi-itoa (n + 1) lt

  -- On files with no faults, and where none of the four files that are written, read or removed is a
  -- directory: StoreTokenUpdate for a device succeeds, whether the device's directory exists or not,
  -- its "Disabled" file is gone afterwards, and the tally that is then retrieved is one more than the
  -- tally before, as long as the sum is below 2^63.
  pub retrieve_token_update_tally-store_token_update :
      (r : Enrolled) (msg : TokenUpdate) (n : ℕ) (s : S)
      → r.parent_id ≡ ""
      → All
          (IsPlain fs c rel r.id s)
          ("UnlockToken.dat" ∷ "TokenUpdate.plist" ∷ tally_file ∷ disabled_file ∷ [])
      → retrieve_token_update_tally fs r.id s ≡ (ok n, s)
      → n + 1 < half
      → (s' : S) × (store_token_update fs r msg s ≡ (ok tt, s'))
        × (retrieve_token_update_tally fs r.id s' ≡ (ok (n + 1), s'))
        × (c.find s' (dir_prefix fs r.id disabled_file) ≡ none)
  unfolding store_token_update retrieve_token_update_tally
  retrieve_token_update_tally-store_token_update r msg n s device plain before fits =
      let (s₁, run₁, keeps₁, dirs₁) =
        optional_write r.id "UnlockToken.dat" msg.unlock_token s refl plain.0 in
      let update : IsPlain fs c rel r.id s₁ "TokenUpdate.plist" =
        dirs₁ "TokenUpdate.plist" refl ∙ plain.1.0 in
      let (s₂, run₂, sets₂, dirs₂) =
        write_file-run fs c rel r.id "TokenUpdate.plist" msg.raw s₁ refl update in
      let counter : IsPlain fs c rel r.id s₂ tally_file =
        dirs₂ tally_file refl ∙ (dirs₁ tally_file refl ∙ plain.1.1.0) in
      let (s₃, run₃, sets₃, dirs₃) = bump-run r.id tally_file s₂ refl counter in
      let disabled : IsPlain fs c rel r.id s₃ disabled_file =
        dirs₃ disabled_file refl
        ∙ (dirs₂ disabled_file refl ∙ (dirs₁ disabled_file refl ∙ plain.1.1.1.0)) in
      let (s₄, run₄, sets₄, dirs₄) = remove-run fs c rel r.id disabled_file s₃ disabled in
      let tally : file r.id tally_file s₂ ≡ file r.id tally_file s =
        Sets-other fs c rel r.id "TokenUpdate.plist" tally_file _ s₁ s₂
          (ne_of_test "TokenUpdate.plist" tally_file refl) sets₂
        ∙ keeps₁ tally_file (ne_of_test "UnlockToken.dat" tally_file refl) in
      let was : number (file r.id tally_file s) ≡ n =
        ap (λ (x : Result ℕ × S). value x.0)
          (sym (read_numeric_file-run fs c rel r.id tally_file s plain.1.1.0) ∙ before) in
      let now : file r.id tally_file s₄ ≡ some (itoa ((n + 1) % word)) =
        Sets-other fs c rel r.id disabled_file tally_file none s₃ s₄
          (ne_of_test disabled_file tally_file refl) sets₄
        ∙ (Sets-same fs c rel (dir_prefix fs r.id tally_file) _ s₂ s₃ sets₃
            ∙ rw (tally, was) refl) in
      let still : IsPlain fs c rel r.id s₄ tally_file =
        dirs₄ tally_file refl ∙ (dirs₃ tally_file refl ∙ counter) in
      (
        s₄,
        rw (run₁, (eq_iff r.parent_id "").1 device, run₂, run₃, run₄) refl,
        read_numeric_file-run fs c rel r.id tally_file s₄ still
            ∙ ap (λ (k : ℕ). (ok k, s₄)) (rw now (bumped n fits)),
        Sets-same fs c rel (dir_prefix fs r.id disabled_file) none s₃ s₄ sets₄,
      )
