-- ===== src/Truco/SentCount.antt =====
-- About senas.ts: the counts of the signals that were sent.
use convite.Prelude.{
  ℕ, ◌⊎◌, ◌+◌, ◌≡◌, ◌≢◌, refl, sym, ◌∙◌, subst, inl, inr, Bool-cases, Option-cases, false, not,
  String, List, [], ◌∷◌, ◌++◌, none, some, find, filter, same_id, same_id_iff, same_id_refl,
  same_id_ne, if◌then◌else◌, arith,
}
use convite.Truco.State.{Player, SenaSendCount, MatchState}
use convite.Truco.Chain.{find_player, ApplyResult}
use convite.Truco.CardPlay.{PlayResult}
use convite.Truco.Senas.{SenaResult, senas_sent_by, count_send}
use convite.Truco.Envido.{EnvidoResult}

pub ApplyResult-ok : {s t : MatchState} → ApplyResult.ok s ≡ ApplyResult.ok t → s ≡ t
ApplyResult-ok e = cc

pub EnvidoResult-ok : {s t : MatchState} → EnvidoResult.ok s ≡ EnvidoResult.ok t → s ≡ t
EnvidoResult-ok e = cc

pub PlayResult-ok : {s t : MatchState} → PlayResult.ok s ≡ PlayResult.ok t → s ≡ t
PlayResult-ok e = cc

pub SenaResult-ok : {s t : MatchState} → SenaResult.ok s ≡ SenaResult.ok t → s ≡ t
SenaResult-ok e = cc

find-kept :
    (sent : List SenaSendCount) (i x : String)
    → i ≢ x
    → find (λ e. same_id e.player_id x) (filter (λ e. not (same_id e.player_id i)) sent)
      ≡ find (λ e. same_id e.player_id x) sent
find-kept [] i x ne = refl
find-kept (e ∷ sent) i x ne = elim (Bool-cases (same_id e.player_id i)) [
  | inl f ↦
      let other = same_id_ne e.player_id x (λ g. ne (sym ((same_id_iff e.player_id i).0 f) ∙ g)) in
      rw (f, other) (find-kept sent i x ne)
  | inr f ↦ rw f (elim (Bool-cases (same_id e.player_id x)) [
    | inl g ↦ rw g refl
    | inr g ↦ rw g (find-kept sent i x ne)
  ])
]

find-dropped :
    (sent : List SenaSendCount) (i : String)
    → find (λ e. same_id e.player_id i) (filter (λ e. not (same_id e.player_id i)) sent) ≡ none
find-dropped [] i = refl
find-dropped (e ∷ sent) i = elim (Bool-cases (same_id e.player_id i)) [
  | inl f ↦ rw f (find-dropped sent i)
  | inr f ↦ rw (f, f) (find-dropped sent i)
]

find-last :
    (sent : List SenaSendCount) (entry : SenaSendCount) (x : String)
    → find (λ e. same_id e.player_id x) sent ≡ none
    → find (λ e. same_id e.player_id x) (sent ++ entry ∷ [])
      ≡ (if same_id entry.player_id x then some entry else none)
find-last [] entry x h = refl
find-last (e ∷ sent) entry x h = elim (Bool-cases (same_id e.player_id x)) [
  | inl f ↦ cc (rw f at h)
  | inr f ↦ rw f (find-last sent entry x (rw f at h))
]

find-append_other :
    (sent : List SenaSendCount) (entry : SenaSendCount) (x : String)
    → same_id entry.player_id x ≡ false
    → find (λ e. same_id e.player_id x) (sent ++ entry ∷ [])
      ≡ find (λ e. same_id e.player_id x) sent
find-append_other [] entry x h = rw h refl
find-append_other (e ∷ sent) entry x h = elim (Bool-cases (same_id e.player_id x)) [
  | inl f ↦ rw f refl
  | inr f ↦ rw f (find-append_other sent entry x h)
]

abbrev pub one_for : String → String → ℕ
one_for i x = if same_id i x then 1 else 0

pub senas_sent_by-count_send :
    (sent : List SenaSendCount) (p : Player) (x : String)
    → senas_sent_by (count_send sent p.id p) x ≡ senas_sent_by sent x + one_for p.id x
unfolding senas_sent_by count_send
senas_sent_by-count_send sent p x =
    let rest = filter (λ e. not (same_id e.player_id p.id)) sent in
    let entry : SenaSendCount = record { player_id = p.id; count = senas_sent_by sent p.id + 1 } in
    elim (Bool-cases (same_id p.id x)) [
      | inl f ↦
          let same = (same_id_iff p.id x).0 f in
          subst
            (λ y. senas_sent_by (count_send sent p.id p) y ≡ senas_sent_by sent y + one_for p.id y)
            same (rw (find-last rest entry p.id (find-dropped sent p.id), same_id_refl p.id) refl)
      | inr f ↦
          rw
            (
              f,
              find-append_other rest entry x f,
              find-kept sent p.id x (λ e. cc ((same_id_iff p.id x).1 e, f)),
            )
            (omega arith)
    ]

find_player-id :
    (players : List Player) (id : String) (p : Player) → find_player players id ≡ some p → p.id ≡ id
unfolding find_player
find_player-id [] id p h = cc
find_player-id (q ∷ players) id p h = elim (Bool-cases (same_id q.id id)) [
  | inl f ↦ cc ((same_id_iff q.id id).0 f, rw (find_player, f) at h)
  | inr f ↦ find_player-id players id p (rw (find_player, f) at h)
]

pub find_player-at :
    (players : List Player) (id : String)
    → (find_player players id ≡ none)
      ⊎ ((p : Player) × (p.id ≡ id) × (find_player players id ≡ some p))
find_player-at players id = elim (Option-cases (find_player players id)) [
  | inl f ↦ inl f
  | inr (p, f) ↦ inr (p, find_player-id players id p f, f)
]
