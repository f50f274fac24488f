-- ===== src/Fs/Dir/Filled.antt =====
-- Filling an empty entry of a directory: what find_in_dir finds afterwards.
use so_project.Base.{
  ℕ, ◌≤◌, ◌<◌, ◌≡◌, ◌≢◌, inl, inr, ℤ, minus_one, ◌==ℤ◌, ==ℤ_iff, IsInt, Memory, CString, NoNul,
  chars, length, ◌∙◌, sym, arith, true, false, Bool-cases, strncmp_eq, strncmp_eq-true,
  strncmp_eq-congr, strncmp_eq-agree, chars-pos, chars-end, chars-injective, ltb, if◌then◌else◌,
}
use so_project.Fs.State.{max_file_name, max_dir_entries}
use so_project.Fs.Dir.{d_inumber, d_name, entry_at, fill_entry, find_in_block}
use so_project.Fs.Dir.Entries.{
  d_inumber-fill_self, d_inumber-fill_ne, d_name-fill_self, d_name-fill_ne,
}
use so_project.Fs.Dir.Find.{
  matches, find_in_block-none, find_in_block-first, find_in_block-all, find_in_block-congr,
}
use native.Mathlib.Decide.{ℕ_discrete, dec_le}
use mathlib.Core.Bool.{false≢true}

module _ (m : Memory) (block k : ℕ) (z : ℤ) (name : CString) (int : IsInt z) (real : z ≢ minus_one)
    (fits : k < max_dir_entries) (empty : d_inumber m block k ≡ minus_one) (nn : NoNul name) where
  abbrev filled : Memory
  filled = fill_entry m (entry_at block k) z name

  number : (d_inumber filled block k ==ℤ minus_one) ≡ false
  number = rw (d_inumber-fill_self m block k z name int) (elim (Bool-cases (z ==ℤ minus_one)) [
    | inl e ↦ absurd (real ((==ℤ_iff z minus_one).0 e))
    | inr e ↦ e
  ])

  was_empty : (name' : CString) → matches m block name' k ≡ false
  was_empty name' = rw empty

  name_at :
      (x : ℕ) → x < max_file_name → d_name filled block k x ≡ (if ltb x 39 then chars name x else 0)
  name_at x h = d_name-fill_self m block k z name x h

  match_elsewhere :
      (name' : CString) (j : ℕ) → j ≢ k → matches filled block name' j ≡ matches m block name' j
  match_elsewhere name' j ne = rw (d_inumber-fill_ne m block k z name j ne) (
      rw (
        strncmp_eq-congr (d_name m block j) (d_name filled block j) (chars name') max_file_name 0
          (λ x a b. d_name-fill_ne m block k z name j x b ne)))

  match_short : length name ≤ 39 → matches filled block name k ≡ true
  match_short le = rw (
    number,
    strncmp_eq-true (d_name filled block k) (chars name) max_file_name 0
        (λ x a b. ground (arith, name_at x b, chars-end name x)),
  )

  match_long : 40 ≤ length name → matches filled block name k ≡ false
  match_long le =
      elim (Bool-cases (strncmp_eq (d_name filled block k) (chars name) max_file_name 0)) [
        | inr e ↦ rw (number, e)
        | inl e ↦ absurd (
            ground (
              arith,
              name_at 39 (omega arith),
              chars-pos name 39 nn (omega arith),
              strncmp_eq-agree (d_name filled block k) (chars name) max_file_name 0 39 e
                  (omega arith) (omega arith) (λ x a b. chars-pos name x nn (omega arith)),
            ))
      ]

  agrees :
      (name' : CString)
      → NoNul name'
      → strncmp_eq (d_name filled block k) (chars name') max_file_name 0 ≡ true
      → length name ≤ 39
      → length name' ≤ 39
      → (x : ℕ) → x ≤ length name'
      → chars name x ≡ chars name' x
  agrees name' nn' e le le' x h = ground (
    arith,
    name_at x (omega arith),
    chars-end name x,
    strncmp_eq-agree (d_name filled block k) (chars name') max_file_name 0 x e (omega arith)
        (omega arith) (λ y a b. chars-pos name' y nn' (omega arith)),
  )

  match_other :
      (name' : CString)
      → NoNul name'
      → name' ≢ name
      → length name ≤ 39
      → matches filled block name' k ≡ false
  match_other name' nn' ne le =
      elim (Bool-cases (strncmp_eq (d_name filled block k) (chars name') max_file_name 0)) [
        | inr e ↦ rw (number, e)
        | inl e ↦ elim (dec_le (length name') 39) [
          | yes le' ↦
              absurd (ne (sym (chars-injective name name' nn nn' (agrees name' nn' e le le'))))
          | no gt ↦ absurd (
              ground (
                arith,
                name_at 39 (omega arith),
                chars-pos name' 39 nn' (omega arith),
                strncmp_eq-agree (d_name filled block k) (chars name') max_file_name 0 39 e
                    (omega arith) (omega arith) (λ x a b. chars-pos name' x nn' (omega arith)),
              ))
        ]
      ]

  -- A new name of at most 39 characters is found, at its i-number.
  pub find-filled :
      length name ≤ 39
      → find_in_block m block name max_dir_entries 0 ≡ minus_one
      → find_in_block filled block name max_dir_entries 0 ≡ z
  find-filled le e =
      find_in_block-first filled block name max_dir_entries 0 k (omega arith) (omega arith)
        (match_short le)
        (λ j a b.
          match_elsewhere name j (omega arith)
          ∙ find_in_block-none m block name max_dir_entries 0 e j (omega arith) (omega arith))
      ∙ d_inumber-fill_self m block k z name int

  -- A name of 40 characters or more is stored without its end, and is not found.
  pub find-filled_long :
      40 ≤ length name
      → find_in_block m block name max_dir_entries 0 ≡ minus_one
      → find_in_block filled block name max_dir_entries 0 ≡ minus_one
  find-filled_long le e = find_in_block-all filled block name max_dir_entries 0 (λ j a b.
      elim (ℕ_discrete j k) [
        | yes q ↦ rw q (match_long le)
        | no q ↦
            match_elsewhere name j q
            ∙ find_in_block-none m block name max_dir_entries 0 e j (omega arith) (omega arith)
      ])

  -- The search for any other name has the result that it had.
  pub find-filled_other :
      length name ≤ 39
      → (name' : CString) → NoNul name'
      → name' ≢ name
      → find_in_block filled block name' max_dir_entries 0
        ≡ find_in_block m block name' max_dir_entries 0
  find-filled_other le name' nn' ne =
      find_in_block-congr m block name' filled max_dir_entries 0
        (λ j a b. elim (ℕ_discrete j k) [
          | yes q ↦ rw q (match_other name' nn' ne le ∙ sym (was_empty name'))
          | no q ↦ match_elsewhere name' j q
        ])
        (λ j a b hit.
          d_inumber-fill_ne m block k z name j
            (λ q. false≢true (sym (was_empty name') ∙ rw q at hit)))
