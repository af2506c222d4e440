-- ===== src/Shell/Descriptors.antt =====
-- The descriptors of the processes of a pipeline, over the system's descriptor table.
use oscraft.Common.{
  ℕ, ◌≤◌, ◌<◌, ◌≡◌, ◌≢◌, refl, sym, ◌∙◌, ap, false, Option, none, some, List, [], ◌∷◌, ◌==◌, ==_iff,
  ==_ne, ==_refl, ltb, if◌then◌else◌, Bool-cases, inl, inr, arith,
}
use oscraft.Shell.Commands.{Call, close, dup, left_calls, right_calls, parent_calls}

-- What a descriptor refers to.
pub data Handle : Type 0 where
  file : ℕ → Handle
  reading_end writing_end : ℕ → Handle

abbrev pub Table : Type 0
Table = ℕ → Option Handle

abbrev pub assign : Table → ℕ → Option Handle → Table
assign t fd h j = if fd == j then h else t j

-- `fd` is the lowest descriptor that is not in use: what `open`, `dup` and each end of a `pipe` get.
pub record IsLowest (t : Table) (fd : ℕ) : Type 0 where
  pub unused : t fd ≡ none
  pub lower : (j : ℕ) → j < fd → t j ≢ none

-- `t` becomes `u` by the calls.
pub data Performs : List Call → Table → Table → Type 0 where
  done : {t u : Table} → u ≡ t → Performs [] t u
  closes :
      {t u : Table} {n : ℕ} {l : List Call}
      → Performs l (assign t n none) u
      → Performs (close n ∷ l) t u
  dups :
      {t u : Table} {n fd : ℕ} {l : List Call}
      → IsLowest t fd
      → Performs l (assign t fd (t n)) u
      → Performs (dup n ∷ l) t u

-- A shell with the table `t`, whose standard input and output are in use, makes the pipe `id`.
pub record MakesPipe (t : Table) (id reading writing : ℕ) : Type 0 where
  pub input : t 0 ≢ none
  pub output : t 1 ≢ none
  pub first : IsLowest t reading
  pub second : IsLowest (assign t reading (some (reading_end id))) writing

-- the table with both ends of the pipe
abbrev pub piped : Table → ℕ → ℕ → ℕ → Table
piped t id reading writing =
    assign (assign t reading (some (reading_end id))) writing (some (writing_end id))

lowest_unique : (t : Table) (a b : ℕ) → IsLowest t a → IsLowest t b → a ≡ b
lowest_unique t a b x y = elim (Bool-cases (a == b)) [
  | inl e ↦ (==_iff a b).0 e
  | inr e ↦ elim (Bool-cases (ltb a b)) [
    | inl lt ↦ absurd (y.lower a (ground arith) x.unused)
    | inr ge ↦ absurd (x.lower b (ground arith) y.unused)
  ]
]

module _ (t : Table) (id reading writing : ℕ) (h : MakesPipe t id reading writing) where
  in_use : (fd : ℕ) → t fd ≢ none → reading ≢ fd
  in_use fd busy z = busy (rw (← z) h.first.unused)

  writing_apart : writing ≢ reading
  writing_apart z = some_ne (rw (z, ==_refl reading) at h.second.unused)
    where
      some_ne : some (reading_end id) ≡ none → ⊥
      some_ne e = cc

  writing_free : t writing ≡ none
  writing_free = rw (==_ne reading writing (λ z. writing_apart (sym z))) at h.second.unused

  writing_in_use : (fd : ℕ) → t fd ≢ none → writing ≢ fd
  writing_in_use fd busy z = busy (rw (← z) writing_free)

  unused_reading : (fd : ℕ) → t fd ≢ none → (reading == fd) ≡ false
  unused_reading fd busy = ==_ne reading fd (in_use fd busy)

  unused_writing : (fd : ℕ) → t fd ≢ none → (writing == fd) ≡ false
  unused_writing fd busy = ==_ne writing fd (writing_in_use fd busy)

  busy : (n : ℕ) → n ≤ 1 → t n ≢ none
  busy n small = elim (Bool-cases (n == 0)) [
    | inl e ↦ rw ((==_iff n 0).0 e) h.input
    | inr e ↦ let one : n ≡ 1 = ground arith in rw one h.output
  ]

  -- A descriptor that is closed while those below are in use is the lowest.
  freed : (n : ℕ) → n ≤ 1 → IsLowest (assign (piped t id reading writing) n none) n
  freed n small = record { unused = rw (==_refl n); lower = λ j lt. lower j lt }
    where
      lower : (j : ℕ) → j < n → assign (piped t id reading writing) n none j ≢ none
      lower j lt =
          let used = busy j (omega arith) in
          let apart : (n == j) ≡ false = ground arith in
          rw (apart, unused_writing j used, unused_reading j used) used

  -- The four calls of a child: `n` becomes what `source` was, and the pipe's own descriptors are closed.
  redirected :
      (n source : ℕ) (u : Table) (fd : ℕ)
      → n ≤ 1
      → n ≢ source
      → IsLowest (assign (piped t id reading writing) n none) fd
      → u
        ≡ assign
            (assign
              (assign
                (assign (piped t id reading writing) n none)
                fd
                (assign (piped t id reading writing) n none source))
              reading
              none)
            writing
            none
      → (j : ℕ) → u j ≡ assign t n (piped t id reading writing source) j
  redirected n source u fd small other low e j =
      let same : fd ≡ n = lowest_unique _ fd n low (freed n small) in
      let at : u j ≡ _ = ap (λ x. x j) e in rw (at, same, ==_ne n source other) (value j)
    where
      value :
          (j : ℕ)
          → assign
              (assign
                (assign
                  (assign (piped t id reading writing) n none)
                  n
                  (piped t id reading writing source))
                reading
                none)
              writing
              none
              j
            ≡ assign t n (piped t id reading writing source) j
      value j = elim (Bool-cases (n == j)) [
        | inl z ↦
            let used : t j ≢ none = rw (← (==_iff n j).0 z) (busy n small) in
            rw (z, unused_writing j used, unused_reading j used)
        | inr z ↦ elim (Bool-cases (writing == j)) [
          | inl w ↦ rw (z, w, ← (==_iff writing j).0 w) (sym writing_free)
          | inr w ↦ elim (Bool-cases (reading == j)) [
            | inl r ↦ rw (z, w, r, ← (==_iff reading j).0 r) (sym h.first.unused)
            | inr r ↦ rw (z, w, r)
          ]
        ]
      ]

  -- Before the first child of a pipeline runs its command, its table is the shell's with the writing end
  -- of the pipe as its output.
  left_calls_lem :
      (u : Table)
      → Performs (left_calls reading writing) (piped t id reading writing) u
      → (j : ℕ) → u j ≡ assign t 1 (some (writing_end id)) j
  unfolding left_calls
  left_calls_lem u (closes (dups {fd = fd} low (closes (closes (done e))))) j =
      let end : piped t id reading writing writing ≡ some (writing_end id) = rw (==_refl writing) in
      redirected 1 writing u fd (omega arith) (λ z. writing_in_use 1 h.output (sym z)) low e j
      ∙ ap (λ x. assign t 1 x j) end

  -- That of the second child is the shell's with the reading end as its input.
  right_calls_lem :
      (u : Table)
      → Performs (right_calls reading writing) (piped t id reading writing) u
      → (j : ℕ) → u j ≡ assign t 0 (some (reading_end id)) j
  unfolding right_calls
  right_calls_lem u (closes (dups {fd = fd} low (closes (closes (done e))))) j =
      let end : piped t id reading writing reading ≡ some (reading_end id) =
        rw (==_ne writing reading writing_apart, ==_refl reading) in
      redirected 0 reading u fd (omega arith) (λ z. in_use 0 h.input (sym z)) low e j
      ∙ ap (λ x. assign t 0 x j) end

  -- The shell has the table from before the pipe.
  parent_calls_lem :
      (u : Table)
      → Performs (parent_calls reading writing) (piped t id reading writing) u
      → (j : ℕ) → u j ≡ t j
  unfolding parent_calls
  parent_calls_lem u (closes (closes (done e))) j = ap (λ x. x j) e ∙ value
    where
      value : assign (assign (piped t id reading writing) reading none) writing none j ≡ t j
      value = elim (Bool-cases (writing == j)) [
        | inl w ↦ rw (w, ← (==_iff writing j).0 w) (sym writing_free)
        | inr w ↦ elim (Bool-cases (reading == j)) [
          | inl r ↦ rw (w, r, ← (==_iff reading j).0 r) (sym h.first.unused)
          | inr r ↦ rw (w, r)
        ]
      ]

  -- The calls can be made, and every way to make them ends with the table `v`.
  abbrev pub EndsWith : List Call → Table → Type 0
  EndsWith l v =
      ((u : Table) × Performs l (piped t id reading writing) u)
      × ((u : Table) → Performs l (piped t id reading writing) u → (j : ℕ) → u j ≡ v j)

  -- A shell whose standard input and output are open makes a pipe. The calls of all three processes can
  -- be made. Then the first child has the shell's table with the pipe's writing end as its output, the
  -- second has it with the reading end as its input, and the shell has its table from before the pipe.
  pub pipeline_tables :
      EndsWith (left_calls reading writing) (assign t 1 (some (writing_end id)))
      × EndsWith (right_calls reading writing) (assign t 0 (some (reading_end id)))
      × EndsWith (parent_calls reading writing) t
  unfolding left_calls right_calls parent_calls
  pipeline_tables = (
    ((_, closes (dups (freed 1 (omega arith)) (closes (closes (done refl))))), left_calls_lem),
    ((_, closes (dups (freed 0 (omega arith)) (closes (closes (done refl))))), right_calls_lem),
    ((_, closes (closes (done refl))), parent_calls_lem),
  )
