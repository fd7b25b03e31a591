-- ===== src/Truco/Deciding.antt =====
-- About resolveHandWinner of hand-winner.ts against the rule of the game.
use convite.Prelude.{
  ℕ, ◌+◌, ◌≡◌, ◌≢◌, refl, sym, ltb, Bool-cases, inl, inr, String, List, [], ◌∷◌, none, some,
  if◌then◌else◌, same_id, same_id_refl, same_id_ne,
}
use convite.Truco.State.{TrickOutcome, decided}
use convite.Truco.HandWinner.{after_two, third_decides, resolve_hand_winner}

-- Who won a trick between two teams.
pub data Side : Type 0 where
  nobody left right : Side

pub outcome_for : String → String → Side → TrickOutcome
outcome_for a b nobody = none
outcome_for a b left = some a
outcome_for a b right = some b

abbrev tricks_left : Side → ℕ
tricks_left nobody = 0
tricks_left left = 1
tricks_left right = 0

abbrev tricks_right : Side → ℕ
tricks_right nobody = 0
tricks_right left = 0
tricks_right right = 1

-- The first trick that somebody won decides, and the mano where nobody won any.
abbrev first_won : List Side → String → String → String → String
first_won [] a b mano = mano
first_won (nobody ∷ sides) a b mano = first_won sides a b mano
first_won (left ∷ sides) a b mano = a
first_won (right ∷ sides) a b mano = b

-- The rule: the team with more tricks, and at equal numbers the team of the first trick won.
pub reference_winner : Side → Side → Side → String → String → String → String
reference_winner x y z a b mano =
    let more = tricks_left x + tricks_left y + tricks_left z in
    let other = tricks_right x + tricks_right y + tricks_right z in
    if ltb other more
    then a
    else (if ltb more other then b else first_won (x ∷ y ∷ z ∷ []) a b mano)

-- Three tricks between two different teams decide the hand, for the team that won more of them; where
-- both won as many, for the team that won the first trick that was no parda; and for the mano's team
-- where every trick was a parda.
pub resolve_hand_winner-reference :
    (x y z : Side) (a b mano : String)
    → a ≢ b
    → resolve_hand_winner (outcome_for a b x ∷ outcome_for a b y ∷ outcome_for a b z ∷ []) mano
      ≡ decided (reference_winner x y z a b mano)
unfolding resolve_hand_winner after_two third_decides outcome_for reference_winner
resolve_hand_winner-reference nobody nobody nobody a b mano ne = refl
resolve_hand_winner-reference nobody nobody left a b mano ne = refl
resolve_hand_winner-reference nobody nobody right a b mano ne = refl
resolve_hand_winner-reference nobody left nobody a b mano ne = refl
resolve_hand_winner-reference nobody left left a b mano ne = refl
resolve_hand_winner-reference nobody left right a b mano ne = refl
resolve_hand_winner-reference nobody right nobody a b mano ne = refl
resolve_hand_winner-reference nobody right left a b mano ne = refl
resolve_hand_winner-reference nobody right right a b mano ne = refl
resolve_hand_winner-reference left nobody nobody a b mano ne = refl
resolve_hand_winner-reference left nobody left a b mano ne = refl
resolve_hand_winner-reference left nobody right a b mano ne = refl
resolve_hand_winner-reference left left nobody a b mano ne = rw (same_id_refl a) refl
resolve_hand_winner-reference left left left a b mano ne = rw (same_id_refl a) refl
resolve_hand_winner-reference left left right a b mano ne = rw (same_id_refl a) refl
resolve_hand_winner-reference left right nobody a b mano ne =
    rw (same_id_ne b a (λ e. ne (sym e))) refl
resolve_hand_winner-reference left right left a b mano ne =
    rw (same_id_ne b a (λ e. ne (sym e))) refl
resolve_hand_winner-reference left right right a b mano ne =
    rw (same_id_ne b a (λ e. ne (sym e))) refl
resolve_hand_winner-reference right nobody nobody a b mano ne = refl
resolve_hand_winner-reference right nobody left a b mano ne = refl
resolve_hand_winner-reference right nobody right a b mano ne = refl
resolve_hand_winner-reference right left nobody a b mano ne = rw (same_id_ne a b ne) refl
resolve_hand_winner-reference right left left a b mano ne = rw (same_id_ne a b ne) refl
resolve_hand_winner-reference right left right a b mano ne = rw (same_id_ne a b ne) refl
resolve_hand_winner-reference right right nobody a b mano ne = rw (same_id_refl b) refl
resolve_hand_winner-reference right right left a b mano ne = rw (same_id_refl b) refl
resolve_hand_winner-reference right right right a b mano ne = rw (same_id_refl b) refl

-- A hand that two tricks decide stays decided for the same team, whatever is played afterwards.
pub resolve_hand_winner-stable :
    (first second : TrickOutcome) (rest : List TrickOutcome) (mano winner : String)
    → resolve_hand_winner (first ∷ second ∷ []) mano ≡ decided winner
    → resolve_hand_winner (first ∷ second ∷ rest) mano ≡ decided winner
unfolding resolve_hand_winner after_two third_decides
resolve_hand_winner-stable none none rest mano winner e = cc
resolve_hand_winner-stable none (some second) rest mano winner e = e
resolve_hand_winner-stable (some first) none rest mano winner e = e
resolve_hand_winner-stable (some first) (some second) rest mano winner e =
    elim (Bool-cases (same_id second first)) [ inl f ↦ rw f (rw f at e) | inr f ↦ cc (rw f at e) ]
