-- ===== src/MySql/Players/Sorted.antt =====
-- LoadPlayerState sorts the progress.
use mathlib.Core.List.{Perm, perm_middle}
use mathlib.Core.List.Perm
use project_moon.Base.{
  ◌≡◌, inl, inr, sym, ap, subst, ◌∙◌, Option, none, some, Option-cases, List, [], ◌∷◌, ◌≤ℤ◌, ltb_ℤ,
  Bool-cases, ℤ, Outcome, ok, Exec, pure, ◌>>=◌, >>=-ok, arith,
}
use project_moon.Model.{PlayerProfile, PlayerDungeonProgress, PlayerState}
use project_moon.Dungeon.MySql.{Row}
use project_moon.MySql.Client.{SqlClient}
use project_moon.MySql.Players.{
  profile_select, progress_select, profile_of_row, progress_of_rows, insert_sorted, sort,
  load_with_profile, load_player_state,
}

-- By the dungeon's id, smallest first
abbrev pub IsSorted : List PlayerDungeonProgress → Type 0
IsSorted [] = Unit
IsSorted (p ∷ []) = Unit
IsSorted (p ∷ q ∷ progress) = (p.dungeon_id ≤ℤ q.dungeon_id) × IsSorted (q ∷ progress)

insert_sorted-IsSorted :
    (p : PlayerDungeonProgress) (sorted : List PlayerDungeonProgress)
    → IsSorted sorted
    → IsSorted (insert_sorted p sorted)
unfolding insert_sorted
insert_sorted-IsSorted p [] h = tt
insert_sorted-IsSorted p (q ∷ []) h = ground arith
insert_sorted-IsSorted p (q ∷ r ∷ sorted) h =
    ground (arith, h, insert_sorted-IsSorted p (r ∷ sorted) h.1)

insert_sorted-perm :
    (p : PlayerDungeonProgress) (sorted : List PlayerDungeonProgress)
    → Perm (insert_sorted p sorted) (p ∷ sorted)
unfolding insert_sorted
insert_sorted-perm p [] = Perm.refl (p ∷ [])
insert_sorted-perm p (q ∷ sorted) = elim (Bool-cases (ltb_ℤ q.dungeon_id p.dungeon_id)) [
  | inl behind ↦
      rw behind
        (Perm.trans (Perm.cons q (insert_sorted-perm p sorted)) (perm_middle (q ∷ []) sorted))
  | inr before ↦ rw before (Perm.refl (p ∷ q ∷ sorted))
]

sort-IsSorted : (progress : List PlayerDungeonProgress) → IsSorted (sort progress)
unfolding sort
sort-IsSorted [] = tt
sort-IsSorted (p ∷ progress) = insert_sorted-IsSorted p (sort progress) (sort-IsSorted progress)

sort-perm : (progress : List PlayerDungeonProgress) → Perm (sort progress) progress
unfolding sort
sort-perm [] = Perm.refl []
sort-perm (p ∷ progress) =
    Perm.trans (insert_sorted-perm p (sort progress)) (Perm.cons p (sort-perm progress))

module _ {S : Type 0} (mysql_client : SqlClient S) where
  asked_rows :
      (player_id : ℤ) (s₁ s₂ : S) (rows : List Row)
      → (let (found, t) = mysql_client.query_rows (progress_select player_id) s₁ in pure found t)
        ≡ (ok rows, s₂)
      → mysql_client.query_rows (progress_select player_id) s₁ ≡ (rows, s₂)
  asked_rows player_id s₁ s₂ rows e = ground (arith, e)

  -- What the part behind the profile has done
  with_profile :
      (player_id : ℤ) (row : Row) (s s' : S) (state : PlayerState)
      → load_with_profile mysql_client player_id row s ≡ (ok state, s')
      → (rows : List Row) × (s₁ s₂ : S) × (progress : List PlayerDungeonProgress)
        × (mysql_client.query_rows (progress_select player_id) s₁ ≡ (rows, s₂))
        × (progress_of_rows rows {S = S} s₂ ≡ (ok progress, s'))
        × (state.dungeon_progress ≡ sort progress)
  unfolding load_with_profile
  with_profile player_id row s s' state h =
      let (profile, s₁, read, rest) = >>=-ok (profile_of_row row) then_rows s s' state h in
      let (rows, s₂, asked, rest') = >>=-ok query (then_progress profile) s₁ s' state rest in
      let (progress, s₃, parsed, last) =
        >>=-ok (progress_of_rows rows) (whole profile) s₂ s' state rest' in
      let same : s₃ ≡ s' = ap (λ r. r.1) last in
      (
        rows,
        s₁,
        s₂,
        progress,
        asked_rows player_id s₁ s₂ rows asked,
        parsed ∙ ap (λ x. (ok progress, x)) same,
        ground (arith, last),
      )
    where
      query : Exec S (List Row)
      query t =
          let (rows, t') = mysql_client.query_rows (progress_select player_id) t in pure rows t'

      whole : PlayerProfile → List PlayerDungeonProgress → Exec S PlayerState
      whole profile progress = pure (record { profile = profile; dungeon_progress = sort progress })

      then_progress : PlayerProfile → List Row → Exec S PlayerState
      then_progress profile rows = progress_of_rows rows >>= whole profile

      then_rows : PlayerProfile → Exec S PlayerState
      then_rows profile = query >>= then_progress profile

  -- A player state that LoadPlayerState comes back with has its progress sorted by the dungeon's
  -- id, and this progress is, in another order, what the rows of the second SELECT say.
  pub load_player_state-IsSorted :
      (player_id : ℤ) (s s' : S) (state : PlayerState)
      → load_player_state mysql_client player_id s ≡ (ok (some state), s')
      → IsSorted state.dungeon_progress
        × (rows : List Row) × (s₁ s₂ : S) × (progress : List PlayerDungeonProgress)
        × (mysql_client.query_rows (progress_select player_id) s₁ ≡ (rows, s₂))
        × (progress_of_rows rows {S = S} s₂ ≡ (ok progress, s'))
        × Perm state.dungeon_progress progress
  unfolding load_player_state
  load_player_state-IsSorted player_id s s' state h =
      elim (Option-cases (mysql_client.query_row (profile_select player_id) s).0) [
        | inl no_player ↦ absurd (ground (arith, h, no_player))
        | inr (row, found) ↦
            let (loaded, v, whole, last) =
              >>=-ok (load_with_profile mysql_client player_id row) _
                (mysql_client.query_row (profile_select player_id) s).1 s' (some state)
                (ap (chosen (mysql_client.query_row (profile_select player_id) s).1) (sym found)
                  ∙ h) in
            let is : loaded ≡ state = ground (arith, last) in
            let left : v ≡ s' = ap (λ r. r.1) last in
            let (rows, s₁, s₂, progress, asked, parsed, sorted) =
              with_profile player_id row (mysql_client.query_row (profile_select player_id) s).1 s'
                state (whole ∙ ground (arith, is, left)) in
            (
              subst IsSorted (sym sorted) (sort-IsSorted progress),
              rows,
              s₁,
              s₂,
              progress,
              asked,
              parsed,
              subst (λ l. Perm l progress) (sym sorted) (sort-perm progress),
            )
      ]
    where
      chosen : S → Option Row → Outcome (Option PlayerState) × S
      chosen t row = elim row [
        | none ↦ pure none t
        | some r ↦ (load_with_profile mysql_client player_id r >>= λ x. pure (some x)) t
      ]
