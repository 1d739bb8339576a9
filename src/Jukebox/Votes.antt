-- ===== src/Jukebox/Votes.antt =====
-- Votes: a toggle turns one voter's vote for one item and leaves every other vote.
use blt.Base.{
  ℕ, ◌≡◌, refl, ap, ◌∙◌, Bool, true, false, not, ◌||◌, some, List, [], ◌∷◌, ◌++◌, inl, inr, arith,
  ==_iff, &&_iff, filter, any, Bool-cases,
}
use mathlib.Core.Path.{subst}
use blt.Jukebox.Steps.{toggle_vote-items}
use blt.Base.Text.{Text, =t_iff, =t_self}
use blt.Jukebox.{Item, Vote, Db, find_item, is_vote, toggle_vote, my_votes}

module _ {ℓ} {A : Type ℓ} (p : A → Bool) where
  any-filter-not : (l : List A) → any p (filter (λ x. not (p x)) l) ≡ false
  any-filter-not [] = refl
  any-filter-not (x ∷ l) = elim (Bool-cases (p x)) [
    | inl e ↦ rw e (any-filter-not l)
    | inr e ↦ rw (e, e) (any-filter-not l)
  ]

  any-filter_other :
      (q : A → Bool) (l : List A)
      → ((x : A) → p x ≡ true → q x ≡ false)
      → any q (filter (λ x. not (p x)) l) ≡ any q l
  any-filter_other q [] h = refl
  any-filter_other q (x ∷ l) h = elim (Bool-cases (p x)) [
    | inl e ↦ rw (e, h x e) (any-filter_other q l h)
    | inr e ↦ rw e (ap (λ b. q x || b) (any-filter_other q l h))
  ]

  any-append_one : (l : List A) (x : A) → any p (l ++ x ∷ []) ≡ (any p l || p x)
  any-append_one [] x = ground arith
  any-append_one (y ∷ l) x = ground (arith, any-append_one l x)

not-not : (b : Bool) → not (not b) ≡ b
not-not b = ground arith

or_false : (b : Bool) → (b || false) ≡ b
or_false b = ground arith

abbrev pub vote : ℕ → Text → Vote
vote id voter = record { item_id = id; voter_id = voter }

-- A vote of one pair is no vote of another.
is_vote-other :
    (id id' : ℕ) (voter voter' : Text) (v : Vote)
    → is_vote id' voter' (vote id voter) ≡ false
    → is_vote id voter v ≡ true
    → is_vote id' voter' v ≡ false
is_vote-other id id' voter voter' v ne e =
    let (a, b) = (&&_iff _ _).0 e in
    let same_id : v.item_id ≡ id = (==_iff _ _).0 a in
    let same_voter : v.voter_id ≡ voter = (=t_iff v.voter_id voter).0 b in
    ap (λ i. is_vote id' voter' (vote i v.voter_id)) same_id
    ∙ ap (λ w. is_vote id' voter' (vote id w)) same_voter
    ∙ ne

-- For an existing item a toggle returns the opposite of the voter's vote before, which is the vote
-- after it, and the votes for other items and of other voters stay.
toggle_vote-flips :
    (db : Db) (id : ℕ) (voter : Text) (it : Item)
    → find_item id db.items ≡ some it
    → ((toggle_vote db id voter).0 ≡ not (my_votes db voter id))
      × (my_votes (toggle_vote db id voter).1 voter id ≡ (toggle_vote db id voter).0)
      × ((id' : ℕ) (voter' : Text)
          → is_vote id' voter' (vote id voter) ≡ false
          → my_votes (toggle_vote db id voter).1 voter' id' ≡ my_votes db voter' id')
unfolding my_votes toggle_vote
toggle_vote-flips db id voter it found = elim (Bool-cases (any (is_vote id voter) db.votes)) [
  | inl v ↦
      rw (toggle_vote, found, v)
        (
          refl,
          any-filter-not (is_vote id voter) db.votes,
          λ id' voter' ne.
              any-filter_other (is_vote id voter) (is_vote id' voter') db.votes
                (λ x. is_vote-other id id' voter voter' x ne),
        )
  | inr v ↦
      rw (toggle_vote, found, v)
        (
          refl,
          any-append_one (is_vote id voter) db.votes (vote id voter)
              ∙ rw (v, (==_iff id id).1 refl, =t_self voter),
          λ id' voter' ne.
              any-append_one (is_vote id' voter') db.votes (vote id voter)
              ∙ rw ne (or_false (any (is_vote id' voter') db.votes)),
        )
]

-- After two toggles in a row every vote reads as before.
pub toggle_vote-twice :
    (db : Db) (id : ℕ) (voter : Text) (it : Item)
    → find_item id db.items ≡ some it
    → (id' : ℕ) (voter' : Text)
    → my_votes (toggle_vote (toggle_vote db id voter).1 id voter).1 voter' id'
      ≡ my_votes db voter' id'
toggle_vote-twice db id voter it found id' voter' =
    let (r1, m1, others1) = toggle_vote-flips db id voter it found in
    let db1 = (toggle_vote db id voter).1 in
    let found1 : find_item id db1.items ≡ some it =
      ap (find_item id) (toggle_vote-items db id voter) ∙ found in
    let (r2, m2, others2) = toggle_vote-flips db1 id voter it found1 in
    elim (Bool-cases (is_vote id' voter' (vote id voter))) [
      | inr e ↦ others2 id' voter' e ∙ others1 id' voter' e
      | inl e ↦
          let (a, b) = (&&_iff _ _).0 e in
          let back : my_votes (toggle_vote db1 id voter).1 voter id ≡ my_votes db voter id =
            m2 ∙ r2 ∙ ap not (m1 ∙ r1) ∙ not-not (my_votes db voter id) in
          subst (λ w. my_votes (toggle_vote db1 id voter).1 w id' ≡ my_votes db w id')
            ((=t_iff voter voter').0 b)
            (subst (λ i. my_votes (toggle_vote db1 id voter).1 voter i ≡ my_votes db voter i)
              ((==_iff id id').0 a) back)
    ]
