-- ===== src/Solana/Checks/Structure.antt =====
-- What structure of a transaction the facilitator accepts.
use mathlib.Core.Option.{some-injective}
use r.Base.{
  get_elem?, if◌then◌else◌, ◌>>◌, List, [], ◌∷◌, any, Memᴰ, Memᴰ-cases, ne_of_==-eq-false, ℕ, zero,
  suc, ◌+◌, ◌-◌, ◌≤◌, ◌<◌, ◌≡◌, ◌≢◌, refl, sym, ap, ◌∙◌, ◌⊎◌, inl, inr, ◌↔◌, true, false,
  Bool-cases, Option, none, some, Option-cases, Outcome, ok, refuse, guard, length, ltb, ◌==◌,
  ==_iff, arith, >>=-eq-ok, guard-eq-ok, refuse-eq-ok,
}
use r.Solana.Types.{
  Pubkey, CompiledInstruction, VersionedTransaction, SolanaExactFacilitatorConfig, SolanaExactError,
  is_blocked, is_allowed, additional_instructions_not_allowed, too_few_instructions,
  instruction_count_exceeds_max, create_ata_not_supported,
}
use r.Solana.Checks.{
  Programs, get_program_id, is_program, check_program, check_programs, validate_instructions,
}

any-==_iff : (p : Pubkey) (ids : List Pubkey) → (any (λ addr. addr == p) ids ≡ true) ↔ Memᴰ p ids
any-==_iff p [] = ((λ h. cc), λ m. elim m [ ])
any-==_iff p (id ∷ ids) = elim (Bool-cases (id == p)) [
  | inl same ↦ ((λ h. Memᴰ.head (sym ((==_iff id p).0 same))), λ m. rw same refl)
  | inr other ↦
      let tail : any (λ addr. addr == p) (id ∷ ids) ≡ any (λ addr. addr == p) ids = rw other refl in
      (
        λ h. Memᴰ.tail ((any-==_iff p ids).0 (sym tail ∙ h)),
        λ m. elim (Memᴰ-cases m) [
          | inl e ↦ absurd (ne_of_==-eq-false id p other (sym e))
          | inr n ↦ tail ∙ (any-==_iff p ids).1 n
        ],
      )
]

any-==-eq-false :
    (p : Pubkey) (ids : List Pubkey) → (any (λ addr. addr == p) ids ≡ false) ↔ ¬ Memᴰ p ids
any-==-eq-false p ids = (
  λ h m. let t = (any-==_iff p ids).1 m in cc,
  λ n. elim (Bool-cases (any (λ addr. addr == p) ids)) [
    | inl t ↦ absurd (n ((any-==_iff p ids).0 t))
    | inr h ↦ h
  ],
)

module _ (programs : Programs) (tx : VersionedTransaction)
    (config : SolanaExactFacilitatorConfig) where
  -- A program that may be called beside the transfer.
  abbrev pub Passes : Pubkey → Type 0
  Passes p = ¬ Memᴰ p config.blocked_program_ids × Memᴰ p config.allowed_program_ids

  passes_lem :
      (p : Pubkey) → ((is_blocked config p ≡ false) × (is_allowed config p ≡ true)) ↔ Passes p
  unfolding is_blocked is_allowed
  passes_lem p = (
    λ (b, a). (
      (any-==-eq-false p config.blocked_program_ids).0 b,
      (any-==_iff p config.allowed_program_ids).0 a,
    ),
    λ (b, a). (
      (any-==-eq-false p config.blocked_program_ids).1 b,
      (any-==_iff p config.allowed_program_ids).1 a,
    ),
  )

  check_program_iff : (p : Pubkey) → (check_program programs config (some p) ≡ ok tt) ↔ Passes p
  check_program_iff p =
      let checked : (check_program programs config (some p) ≡ ok tt)
          ↔ ((is_blocked config p ≡ false) × (is_allowed config p ≡ true)) =
        ground arith in
      (λ h. (passes_lem p).0 (checked.0 h), λ h. checked.1 ((passes_lem p).1 h))

  -- The loop accepts exactly if each program in its range may be called.
  check_programs_iff :
      (left i : ℕ)
      → (check_programs programs config tx i left ≡ ok tt) ↔ (
          (j : ℕ) (p : Pubkey)
          → i ≤ j
          → j < i + left
          → get_program_id programs tx j ≡ some p
          → Passes p)
  check_programs_iff zero i = (λ h j p l m g. absurd (omega (arith, l, m)), λ f. refl)
  check_programs_iff (suc left) i = (
    λ h j p l m g.
        let (u, c, rest) =
          >>=-eq-ok (check_program programs config (get_program_id programs tx i)) _ h in
        elim (Bool-cases (i == j)) [
          | inl same ↦
              let e : i ≡ j = (==_iff i j).0 same in
              let here : get_program_id programs tx i ≡ some p =
                ap (get_program_id programs tx) e ∙ g in
              (check_program_iff p).0 (ap (check_program programs config) (sym here) ∙ c)
          | inr other ↦
              let l' : suc i ≤ j = ground arith in
              let m' : j < suc i + left = omega (arith, m) in
              (check_programs_iff left (suc i)).0 rest j p l' m' g
        ],
    λ f.
        let rest : check_programs programs config tx (suc i) left ≡ ok tt =
          (check_programs_iff left (suc i)).1
            (λ j p l m g. f j p (omega (arith, l)) (omega (arith, m)) g) in
        elim (Option-cases (get_program_id programs tx i)) [
          | inl none_here ↦ rw (none_here, rest) refl
          | inr (p, here) ↦
              rw (here, (check_program_iff p).1 (f i p (omega arith) (omega arith) here), rest) refl
        ],
  )

  -- The instruction at an index calls a program.
  abbrev pub Calls : ℕ → Pubkey → Type 0
  Calls j p =
      (i : CompiledInstruction) × (get_elem? tx.instructions j ≡ some i)
      × (programs.program_id i tx.static_account_keys ≡ p)

  calls_lem : (j : ℕ) (p : Pubkey) → (get_program_id programs tx j ≡ some p) ↔ Calls j p
  unfolding get_program_id
  calls_lem j p = (
    λ h. elim (Option-cases (get_elem? tx.instructions j)) [
      | inl e ↦ cc
      | inr (i, e) ↦
          let called : some (programs.program_id i tx.static_account_keys) ≡ some p = cc in
          (i, e, some-injective _ _ called)
    ],
    λ (i, e, q). rw (e, q) refl,
  )

  -- A transaction of three instructions or, where more are allowed, as many as the configuration
  -- admits, whose third creates no token account, and whose further ones call allowed programs
  -- that are not blocked.
  pub record IsStructured : Type 0 where
    pub enough : 3 ≤ length tx.instructions
    pub bounded : length tx.instructions ≤ config.max_instruction_count
    pub creates_none : ¬ Calls 2 programs.associated_token
    pub extended : (length tx.instructions ≡ 3) ⊎ (config.allow_additional_instructions ≡ true)
    pub passing : (j : ℕ) (p : Pubkey) → 3 ≤ j → j < length tx.instructions → Calls j p → Passes p

  is_program_iff :
      (program : Pubkey) (o : Option Pubkey)
      → (is_program programs program o ≡ false) ↔ (o ≢ some program)
  is_program_iff program none = (λ h q. cc q, λ f. refl)
  is_program_iff program (some p) = (
    λ h q. ne_of_==-eq-false p program h (some-injective _ _ q),
    λ f. elim (Bool-cases (p == program)) [
      | inl t ↦ absurd (f (ap some ((==_iff p program).0 t)))
      | inr h ↦ h
    ],
  )

  abbrev count : ℕ
  count = length tx.instructions

  -- The checks of the instructions after the third.
  abbrev additional : Outcome (Unit {0}) SolanaExactError
  additional =
      guard config.allow_additional_instructions additional_instructions_not_allowed
      >> check_programs programs config tx 3 (count - 3)

  passing_of :
      additional ≡ ok tt
      → (config.allow_additional_instructions ≡ true)
        × ((j : ℕ) (p : Pubkey)
            → 3 ≤ j
            → j < count
            → get_program_id programs tx j ≡ some p
            → Passes p)
  passing_of h =
      let allow = config.allow_additional_instructions in
      let (u, g, rest) = >>=-eq-ok (guard allow additional_instructions_not_allowed) _ h in
      (
        guard-eq-ok allow _ g,
        λ j p l m e. (check_programs_iff (count - 3) 3).0 rest j p l (omega (arith, l, m)) e,
      )

  sound : validate_instructions programs tx config ≡ ok tt → IsStructured
  unfolding validate_instructions
  sound h =
      let (u, a, r) = >>=-eq-ok (refuse (ltb count 3) too_few_instructions) _ h in
      let (v, b, s) =
        >>=-eq-ok
          (refuse (ltb config.max_instruction_count count)
            (instruction_count_exceeds_max config.max_instruction_count))
          _ r in
      let third = is_program programs programs.associated_token (get_program_id programs tx 2) in
      let (w, c, t) = >>=-eq-ok (refuse third create_ata_not_supported) _ s in
      let long : ltb count 3 ≡ false = refuse-eq-ok (ltb count 3) _ a in
      let short : ltb config.max_instruction_count count ≡ false =
        refuse-eq-ok (ltb config.max_instruction_count count) _ b in
      let none_created =
        (is_program_iff programs.associated_token (get_program_id programs tx 2)).0
          (refuse-eq-ok third _ c) in
      elim (Bool-cases (ltb 3 count)) [
        | inl more ↦
            let entered : (if ltb 3 count then additional else ok tt) ≡ additional = rw more refl in
            let (allowed, pass) = passing_of (sym entered ∙ t) in
            record {
              enough = ground arith;
              bounded = ground arith;
              creates_none = λ c. none_created ((calls_lem 2 programs.associated_token).1 c);
              extended = inr allowed;
              passing = λ j p l m c. pass j p l m ((calls_lem j p).1 c);
            }
        | inr few ↦
            let three : count ≡ 3 = ground arith in
            record {
              enough = ground arith;
              bounded = ground arith;
              creates_none = λ c. none_created ((calls_lem 2 programs.associated_token).1 c);
              extended = inl three;
              passing = λ j p l m e. absurd (omega (arith, l, m, three));
            }
      ]

  complete : IsStructured → validate_instructions programs tx config ≡ ok tt
  unfolding validate_instructions
  complete s =
      let enough = s.enough in
      let bounded = s.bounded in
      let long : ltb count 3 ≡ false = ground arith in
      let short : ltb config.max_instruction_count count ≡ false = ground arith in
      let third =
        (is_program_iff programs.associated_token (get_program_id programs tx 2)).1
          (λ e. s.creates_none ((calls_lem 2 programs.associated_token).0 e)) in
      elim (Bool-cases (ltb 3 count)) [
        | inr few ↦ rw (long, short, third, few) refl
        | inl more ↦
            let rest =
              (check_programs_iff (count - 3) 3).1
                (λ j p l m e. s.passing j p l (omega (arith, m, enough)) ((calls_lem j p).0 e)) in
            elim s.extended [
              | inl three ↦ absurd (ground arith)
              | inr allowed ↦ rw (long, short, third, more, rest, allowed) refl
            ]
      ]

  -- The instructions of a transaction are accepted exactly if they are three or, where more are
  -- allowed, at most the configured number, the third creates no token account, and the ones after
  -- the third call programs in the list of allowed ones and not in that of blocked ones.
  pub validate_instructions_iff : (validate_instructions programs tx config ≡ ok tt) ↔ IsStructured
  validate_instructions_iff = (sound, complete)
