-- ===== src/Libvirt/Memory/Reading.antt =====
-- What a reading of the balloon can say.
use pademelon.Base.{
  ℕ, ◌+◌, ◌≡◌, refl, true, false, Option, none, some, List, [], ◌∷◌, nat_eq, if◌then◌else◌, arith,
  Bool-cases, inl, inr, sym,
}
use pademelon.Libvirt.Memory.{
  MemoryStat, mem_stat_available, mem_stat_unused, mem_stat_usable, mem_stat_last_update, Gathered,
  nothing, gather_one, gather, Balloon, unusable, is_dated, fits, used_of, balloon_memory,
  judge_gathered, reading,
}

-- The value of the last entry with a tag, or what there was before.
unfoldable pub last_of : ℕ → List MemoryStat → Option ℕ → Option ℕ
last_of tag [] before = before
last_of tag (st ∷ rest) before =
    last_of tag rest (if nat_eq st.tag tag then some st.val else before)

abbrev pub last : ℕ → List MemoryStat → Option ℕ
last tag l = last_of tag l none

gather_available :
    (l : List MemoryStat) (g : Gathered)
    → (gather l g).available ≡ last_of mem_stat_available l g.available
unfolding gather last_of gather_one
gather_available [] g = refl
gather_available (st ∷ rest) g = ground (arith, gather_available rest (gather_one st g))

gather_unused :
    (l : List MemoryStat) (g : Gathered) → (gather l g).unused ≡ last_of mem_stat_unused l g.unused
unfolding gather last_of gather_one
gather_unused [] g = refl
gather_unused (st ∷ rest) g = ground (arith, gather_unused rest (gather_one st g))

gather_usable :
    (l : List MemoryStat) (g : Gathered) → (gather l g).usable ≡ last_of mem_stat_usable l g.usable
unfolding gather last_of gather_one
gather_usable [] g = refl
gather_usable (st ∷ rest) g = ground (arith, gather_usable rest (gather_one st g))

gather_last_update :
    (l : List MemoryStat) (g : Gathered)
    → (gather l g).last_update ≡ last_of mem_stat_last_update l g.last_update
unfolding gather last_of gather_one
gather_last_update [] g = refl
gather_last_update (st ∷ rest) g = ground (arith, gather_last_update rest (gather_one st g))

-- What a reading may be, given what the guest reported last of each tag: a share of the total the
-- guest saw, by the memory it can use or else by the memory it has free; a dated snapshot; or nothing.
pub data IsVerdict (now : ℕ) (available unused usable stamp : Option ℕ) (b : Balloon) : Type 0 where
  by_usable :
      (left : ℕ)
      → is_dated now stamp ≡ false
      → available ≡ some b.total
      → usable ≡ some left
      → b.used + left ≡ b.total
      → b.ok ≡ true
      → b.stale ≡ false
      → IsVerdict now available unused usable stamp b
  by_unused :
      (left : ℕ)
      → is_dated now stamp ≡ false
      → available ≡ some b.total
      → fits b.total usable ≡ false
      → unused ≡ some left
      → b.used + left ≡ b.total
      → b.ok ≡ true
      → b.stale ≡ false
      → IsVerdict now available unused usable stamp b
  dated :
      (total : ℕ)
      → available ≡ some total
      → is_dated now stamp ≡ true
      → b ≡ record unusable { stale = true }
      → IsVerdict now available unused usable stamp b
  unreported : available ≡ none → b ≡ unusable → IsVerdict now available unused usable stamp b
  nonsense :
      (total : ℕ)
      → available ≡ some total
      → is_dated now stamp ≡ false
      → fits total usable ≡ false
      → fits total unused ≡ false
      → b ≡ unusable
      → IsVerdict now available unused usable stamp b

fits_left :
    (available : ℕ) (o : Option ℕ)
    → fits available o ≡ true
    → (left : ℕ) × (o ≡ some left) × (used_of available o + left ≡ available)
unfolding fits used_of
fits_left available none h = cc
fits_left available (some left) h = (left, refl, ground (arith, h))

reading-IsVerdict :
    (now total : ℕ) (g : Gathered)
    → IsVerdict now (some total) g.unused g.usable g.last_update (reading now total g)
unfolding reading
reading-IsVerdict now total g = elim (Bool-cases (is_dated now g.last_update)) [
  | inl old ↦ rw old (IsVerdict.dated total refl old refl)
  | inr fresh ↦ rw fresh (elim (Bool-cases (fits total g.usable)) [
    | inl fit ↦
        let l = fits_left total g.usable fit in
        rw fit (IsVerdict.by_usable l.0 fresh refl l.1 l.2 refl refl)
    | inr unfit ↦ rw unfit (elim (Bool-cases (fits total g.unused)) [
      | inl fit ↦
          let l = fits_left total g.unused fit in
          rw fit (IsVerdict.by_unused l.0 fresh refl unfit l.1 l.2 refl refl)
      | inr neither ↦ rw neither (IsVerdict.nonsense total refl fresh unfit neither refl)
    ])
  ])
]

judged-IsVerdict :
    (now : ℕ) (g : Gathered) (o : Option ℕ)
    → IsVerdict now o g.unused g.usable g.last_update (judge_gathered now g o)
unfolding judge_gathered
judged-IsVerdict now g none = IsVerdict.unreported refl refl
judged-IsVerdict now g (some total) = reading-IsVerdict now total g

-- Whatever the balloon's statistics, the reading is one of these, by the last entry of each tag: a
-- used share that makes up the total together with what is left, which is the memory usable if that
-- is no more than the total, and else the memory unused; or, if the stamp is too old, no numbers and
-- the mark of a dated snapshot; or no numbers and no mark.
pub balloon_memory-IsVerdict :
    (stats : List MemoryStat) (now : ℕ)
    → IsVerdict now
        (last mem_stat_available stats)
        (last mem_stat_unused stats)
        (last mem_stat_usable stats)
        (last mem_stat_last_update stats)
        (balloon_memory stats now)
unfolding balloon_memory
balloon_memory-IsVerdict stats now =
    let g = gather stats nothing in
    rw
      (
        sym (gather_available stats nothing),
        sym (gather_unused stats nothing),
        sym (gather_usable stats nothing),
        sym (gather_last_update stats nothing),
      )
      (judged-IsVerdict now g g.available)
