-- ===== src/Escoba/Handing.antt =====
-- About dealHandsRoundRobin of deal.ts: the cards that go to the hands and the cards that are
-- left.
use convite.Prelude.{
  drop, ℕ, zero, suc, ◌+◌, ◌*◌, ◌≤◌, ◌≡◌, refl, sym, ap, ◌∙◌, String, List, [], ◌∷◌, ◌++◌, Option,
  none, some, length, All, arith, length-append, get_elem?, get_elem?_total, subst,
}
use native.Mathlib.Nat.{zero-add, suc-mul, zero-mul, mul_comm}
use mathlib.Core.Option.{some-injective}
use convite.Deck.{Card, card, oro, r7}
use convite.Deck.Count.{count, count-append}
use convite.Escoba.State.{Player}
use convite.Escoba.Dealing.{
  cons_hand, deal_round, deal_rounds, empty_hands, deal_hands_round_robin, with_hands,
}
use convite.Escoba.Counting.{in_hands}

-- How often a card is in some hands.
unfoldable pub in_dealt : Card → List (List Card) → ℕ
in_dealt c [] = 0
in_dealt c (hand ∷ hands) = count c hand + in_dealt c hands

cons_hand-some :
    (o : Option Card) (hand : List Card) (r : Option (List (List Card))) (out : List (List Card))
    → cons_hand o hand r ≡ some out
    → (x : Card) × (hands : List (List Card)) × (o ≡ some x)
      × (r ≡ some hands)
      × (out ≡ (hand ++ x ∷ []) ∷ hands)
cons_hand-some none hand r out e = cc
cons_hand-some (some x) hand none out e = cc
cons_hand-some (some x) hand (some hands) out e = (x, hands, refl, refl, sym (some-injective _ _ e))

drop-at :
    (c : Card) (source : List Card) (i : ℕ) (x : Card)
    → get_elem? source i ≡ some x
    → count c (drop i source) ≡ count c (x ∷ []) + count c (drop (suc i) source)
unfolding count
drop-at c [] i x e = cc
drop-at c (y ∷ source) zero x e =
    ap (λ z. count c (z ∷ source)) (some-injective _ _ e) ∙ ground arith
drop-at c (y ∷ source) (suc i) x e = drop-at c source i x e

deal_round-count :
    (c : Card) (source : List Card) (i : ℕ) (hands out : List (List Card))
    → deal_round source i hands ≡ some out
    → (in_dealt c out + count c (drop (i + length hands) source)
        ≡ in_dealt c hands + count c (drop i source))
      × (length out ≡ length hands)
unfolding deal_round in_dealt count
deal_round-count c source i [] out e =
    let same : [] ≡ out = some-injective _ _ e in
    (
      subst (λ z. in_dealt c z + count c (drop (i + 0) source) ≡ 0 + count c (drop i source)) same
          (let z : i + 0 ≡ i = omega arith in ap (λ k. 0 + count c (drop k source)) z),
      ap length (sym same),
    )
deal_round-count c source i (hand ∷ hands) out e =
    let (x, rest, f, g, same) = cons_hand-some _ hand _ out e in
    let (n, l) = deal_round-count c source (suc i) hands rest g in
    let at_i = drop-at c source i x f in
    let cards = count-append c hand (x ∷ []) in
    let shift : suc i + length hands ≡ i + suc (length hands) = omega arith in
    let n' =
      subst
        (λ k.
          in_dealt c rest + count c (drop k source)
          ≡ in_dealt c hands + count c (drop (suc i) source))
        shift n in
    rw same (omega (arith, n', at_i, cards), omega (arith, l))

-- A round succeeds where the source has a card for every seat, and every hand is one card longer.
deal_round-total :
    (m : ℕ) (source : List Card) (i : ℕ) (hands : List (List Card))
    → i + length hands ≤ length source
    → All (λ h. length h ≡ m) hands
    → (out : List (List Card)) × (deal_round source i hands ≡ some out)
      × (All (λ h. length h ≡ suc m) out)
unfolding deal_round
deal_round-total m source i [] le each = ([], refl, tt)
deal_round-total m source i (hand ∷ hands) le each =
    let (x, f) = get_elem?_total source i (omega arith) in
    let (out, g, longer) = deal_round-total m source (suc i) hands (omega arith) each.1 in
    (
      (hand ++ x ∷ []) ∷ out,
      rw (f, g) refl,
      (rw (length-append hand (x ∷ [])) (omega (arith, each.0)), longer),
    )

-- What rounds of dealing hand out.
record Deals (source : List Card) (n from upto m : ℕ) (hands out : List (List Card)) : Type 0 where
  all_seats : length out ≡ n
  each_hand : All (λ h. length h ≡ m) out
  all_cards :
      (c : Card)
      → in_dealt c out + count c (drop upto source) ≡ in_dealt c hands + count c (drop from source)

deal_rounds-total :
    (left m : ℕ) (source : List Card) (n round : ℕ) (hands : List (List Card))
    → round * n + left * n ≤ length source
    → length hands ≡ n
    → All (λ h. length h ≡ m) hands
    → (out : List (List Card)) × (deal_rounds source n round left hands ≡ some out)
      × Deals source n (round * n) (round * n + left * n) (m + left) hands out
unfolding deal_rounds
deal_rounds-total zero m source n round hands le l each =
    let there : round * n + 0 * n ≡ round * n = omega (arith, zero-mul n) in
    let len : m + 0 ≡ m = omega arith in
    (
      hands,
      refl,
      subst (λ k. Deals source n (round * n) k (m + 0) hands hands) (sym there)
          (subst (λ k. Deals source n (round * n) (round * n) k hands hands) (sym len)
            (record { all_seats = l; each_hand = each; all_cards = λ c. refl })),
    )
deal_rounds-total (suc left) m source n round hands le l each =
    let step = suc-mul round n in
    let step' = suc-mul left n in
    let (next, f, longer) = deal_round-total m source (round * n) hands (omega arith) each in
    let sizes = (deal_round-count (card r7 oro) source (round * n) hands next f).1 in
    let (out, g, d) =
      deal_rounds-total left (suc m) source n (suc round) next (omega arith) (omega arith) longer in
    let there : suc round * n + left * n ≡ round * n + suc left * n = omega arith in
    let at : round * n + length hands ≡ suc round * n = omega arith in
    (
      out,
      rw (deal_rounds, f) g,
      record {
        all_seats = d.all_seats;
        each_hand = subst (λ k. All (λ h. length h ≡ k) out) (omega arith) d.each_hand;
        all_cards = λ c.
            let now =
              subst
                (λ k.
                  in_dealt c next + count c (drop k source)
                  ≡ in_dealt c hands + count c (drop (round * n) source))
                at (deal_round-count c source (round * n) hands next f).0 in
            let later =
              subst
                (λ k.
                  in_dealt c out + count c (drop k source)
                  ≡ in_dealt c next + count c (drop (suc round * n) source))
                there (d.all_cards c) in
            later ∙ now;
      },
    )

empty_hands-lem : (n : ℕ) → (length (empty_hands n) ≡ n) × (All (λ h. length h ≡ 0) (empty_hands n))
unfolding empty_hands
empty_hands-lem zero = (refl, tt)
empty_hands-lem (suc n) = let (l, each) = empty_hands-lem n in (omega (arith, l), (refl, each))

in_dealt-empty_hands : (c : Card) (n : ℕ) → in_dealt c (empty_hands n) ≡ 0
unfolding empty_hands in_dealt count
in_dealt-empty_hands c zero = refl
in_dealt-empty_hands c (suc n) = omega (arith, in_dealt-empty_hands c n)

-- Where the source has enough cards for every seat, dealing succeeds: there is a hand for every
-- seat, each has the cards of a seat, and every card of the source is as often in the hands and what
-- is left as it was in the source.
pub deal_hands_round_robin-total :
    (source : List Card) (n k : ℕ)
    → n * k ≤ length source
    → (hands : List (List Card)) × (deal_hands_round_robin source n k ≡ some hands)
      × (length hands ≡ n)
      × (All (λ h. length h ≡ k) hands)
      × ((c : Card) → in_dealt c hands + count c (drop (n * k) source) ≡ count c source)
unfolding deal_hands_round_robin
deal_hands_round_robin-total source n k le =
    let (l, each) = empty_hands-lem n in
    let none_before = zero-mul n in
    let turn = mul_comm n k in
    let (hands, e, d) = deal_rounds-total k 0 source n 0 (empty_hands n) (omega arith) l each in
    let from : 0 * n ≡ 0 = none_before in
    let upto : 0 * n + k * n ≡ n * k = omega arith in
    (
      hands,
      e,
      d.all_seats,
      subst (λ m. All (λ h. length h ≡ m) hands) (zero-add k) d.each_hand,
      λ c.
          let cards =
            subst
              (λ z.
                in_dealt c hands + count c (drop z source)
                ≡ in_dealt c (empty_hands n) + count c source)
              upto
              (subst
                (λ z.
                  in_dealt c hands + count c (drop (0 * n + k * n) source)
                  ≡ in_dealt c (empty_hands n) + count c (drop z source))
                from (d.all_cards c)) in
          omega (arith, cards, in_dealt-empty_hands c n),
    )

pub in_hands-with_hands :
    (c : Card) (ps : List Player) (hands : List (List Card))
    → length hands ≡ length ps
    → in_hands c (with_hands ps hands) ≡ in_dealt c hands
unfolding in_hands in_dealt with_hands
in_hands-with_hands c [] [] l = refl
in_hands-with_hands c [] (h ∷ hands) l = omega arith
in_hands-with_hands c (p ∷ ps) [] l = omega arith
in_hands-with_hands c (p ∷ ps) (h ∷ hands) l =
    omega (arith, in_hands-with_hands c ps hands (omega arith))

pub with_hands-each :
    (k : ℕ) (ps : List Player) (hands : List (List Card))
    → All (λ h. length h ≡ k) hands
    → All (λ p. length p.hand ≡ k) (with_hands ps hands)
unfolding with_hands
with_hands-each k [] hands each = tt
with_hands-each k (p ∷ ps) [] each = tt
with_hands-each k (p ∷ ps) (h ∷ hands) each = (each.0, with_hands-each k ps hands each.1)

-- The players keep their teams.
pub with_hands-teams {ℓ} :
    (P : String → Type ℓ) (ps : List Player) (hands : List (List Card))
    → All (λ p. P p.team_id) ps
    → All (λ p. P p.team_id) (with_hands ps hands)
unfolding with_hands
with_hands-teams P [] hands h = tt
with_hands-teams P (p ∷ ps) [] h = tt
with_hands-teams P (p ∷ ps) (_ ∷ hands) h = (h.0, with_hands-teams P ps hands h.1)

pub length-with_hands :
    (ps : List Player) (hands : List (List Card))
    → length hands ≡ length ps
    → length (with_hands ps hands) ≡ length ps
unfolding with_hands
length-with_hands [] hands l = refl
length-with_hands (p ∷ ps) [] l = omega arith
length-with_hands (p ∷ ps) (h ∷ hands) l = omega (arith, length-with_hands ps hands (omega arith))
