-- ===== src/Workflow/Session/Proposals.antt =====
-- internal/domain/workflow/design_session.go: what the loops over a session's proposals keep.
use req_flow.Prelude.{
  String, Bool, true, false, not, List, [], ◌∷◌, ◌++◌, map, ◌≡◌, refl, ◌==◌, eq_iff, arith, any,
  All, Option, none, some, find, if◌then◌else◌,
}
use req_flow.Prelude.Int.{ℤ, ◌<ℤ◌, eqb_ℤ, eqb_ℤ→eq}
use req_flow.Workflow.Session.Defs.{CommandProposal, ProposalStatus, is_pending, retire, settle}

-- A pending proposal was drafted against the revision.
abbrev pub IsCurrent : ℤ → CommandProposal → Type 0
IsCurrent revision p = is_pending p.status ≡ true → p.draft_revision ≡ revision

abbrev pub has_id : String → List CommandProposal → Bool
has_id id ps = any (λ existing. existing.id == id) ps

-- No two proposals share an identifier.
abbrev pub HasUniqueIds : List CommandProposal → Type 0
HasUniqueIds [] = Unit
HasUniqueIds (p ∷ ps) = (has_id p.id ps ≡ false) × HasUniqueIds ps

id-retire : (stale : CommandProposal → Bool) (p : CommandProposal) → (retire stale p).id ≡ p.id
unfolding retire
id-retire stale p = ground arith

has_id-retire :
    (id : String) (stale : CommandProposal → Bool) (ps : List CommandProposal)
    → has_id id (map (retire stale) ps) ≡ has_id id ps
has_id-retire id stale [] = refl
has_id-retire id stale (p ∷ ps) = rw (id-retire stale p, has_id-retire id stale ps)

has_id-settle :
    (id j : String) (status : ProposalStatus) (ps : List CommandProposal)
    → has_id id (settle j status ps) ≡ has_id id ps
unfolding settle
has_id-settle id j status [] = refl
has_id-settle id j status (p ∷ ps) = ground (arith, has_id-settle id j status ps)

pub HasUniqueIds-retire :
    (stale : CommandProposal → Bool) (ps : List CommandProposal)
    → HasUniqueIds ps
    → HasUniqueIds (map (retire stale) ps)
HasUniqueIds-retire stale [] h = tt
HasUniqueIds-retire stale (p ∷ ps) h =
    (rw (id-retire stale p, has_id-retire p.id stale ps) h.0, HasUniqueIds-retire stale ps h.1)

pub HasUniqueIds-settle :
    (id : String) (status : ProposalStatus) (ps : List CommandProposal)
    → HasUniqueIds ps
    → HasUniqueIds (settle id status ps)
unfolding settle
HasUniqueIds-settle id status [] h = tt
HasUniqueIds-settle id status (p ∷ ps) h =
    ground (arith, has_id-settle p.id id status ps, HasUniqueIds-settle id status ps h.1)

has_id-append :
    (id : String) (ps : List CommandProposal) (p : CommandProposal)
    → has_id id ps ≡ false
    → (p.id == id) ≡ false
    → has_id id (ps ++ p ∷ []) ≡ false
has_id-append id [] p h k = ground arith
has_id-append id (q ∷ ps) p h k = ground (arith, has_id-append id ps p)

pub HasUniqueIds-append :
    (ps : List CommandProposal) (p : CommandProposal)
    → HasUniqueIds ps
    → has_id p.id ps ≡ false
    → HasUniqueIds (ps ++ p ∷ [])
HasUniqueIds-append [] p h k = (refl, tt)
HasUniqueIds-append (q ∷ ps) p h k = (
  has_id-append q.id ps p h.0 (ground (arith, eq_iff q.id p.id, eq_iff p.id q.id)),
  HasUniqueIds-append ps p h.1 (ground arith),
)

pub All-retire_each :
    (revision : ℤ) (ps : List CommandProposal)
    → All (IsCurrent revision) (map (retire (λ p. true)) ps)
unfolding retire
All-retire_each revision [] = tt
All-retire_each revision (p ∷ ps) = (ground arith, All-retire_each revision ps)

pub All-retire_other :
    (revision : ℤ) (ps : List CommandProposal)
    → All (IsCurrent revision) (map (retire (λ p. not (eqb_ℤ p.draft_revision revision))) ps)
unfolding retire
All-retire_other revision [] = tt
All-retire_other revision (p ∷ ps) =
    (ground (arith, eqb_ℤ→eq p.draft_revision revision), All-retire_other revision ps)

pub All-settle :
    (revision : ℤ) (id : String) (status : ProposalStatus) (ps : List CommandProposal)
    → is_pending status ≡ false
    → All (IsCurrent revision) ps
    → All (IsCurrent revision) (settle id status ps)
unfolding settle
All-settle revision id status [] n h = tt
All-settle revision id status (p ∷ ps) n h = ground (arith, All-settle revision id status ps n h.1)

abbrev pub IsNotPending : CommandProposal → Type 0
IsNotPending p = is_pending p.status ≡ false

-- Once the revision has moved on, retiring the others leaves none pending.
pub All-retire_outdated :
    (revision next : ℤ) (ps : List CommandProposal)
    → revision <ℤ next
    → All (IsCurrent revision) ps
    → All IsNotPending (map (retire (λ p. not (eqb_ℤ p.draft_revision next))) ps)
unfolding retire
All-retire_outdated revision next [] l h = tt
All-retire_outdated revision next (p ∷ ps) l h =
    (ground (arith, eqb_ℤ→eq p.draft_revision next), All-retire_outdated revision next ps l h.1)

-- The status that a proposal has, by its identifier.
abbrev pub status_of : String → List CommandProposal → Option ProposalStatus
status_of id [] = none
status_of id (p ∷ ps) = if p.id == id then some p.status else status_of id ps

abbrev pub IsSettled : Option ProposalStatus → Type 0
IsSettled none = ⊥
IsSettled (some status) = is_pending status ≡ false

-- Retiring changes no settled proposal.
pub status_of-retire :
    (id : String) (stale : CommandProposal → Bool) (ps : List CommandProposal)
    → IsSettled (status_of id ps)
    → status_of id (map (retire stale) ps) ≡ status_of id ps
unfolding retire
status_of-retire id stale [] h = refl
status_of-retire id stale (p ∷ ps) h = ground (arith, status_of-retire id stale ps)

-- Settling a pending proposal changes no settled one.
pub status_of-settle :
    (id j : String) (status : ProposalStatus) (ps : List CommandProposal) (p : CommandProposal)
    → find (λ q. q.id == j) ps ≡ some p
    → is_pending p.status ≡ true
    → IsSettled (status_of id ps)
    → status_of id (settle j status ps) ≡ status_of id ps
unfolding settle
status_of-settle id j status [] p f q h = refl
status_of-settle id j status (r ∷ ps) p f q h =
    ground (arith, eq_iff r.id j, eq_iff r.id id, eq_iff id j, status_of-settle id j status ps p)

pub status_of-append :
    (id : String) (ps : List CommandProposal) (p : CommandProposal)
    → IsSettled (status_of id ps)
    → status_of id (ps ++ p ∷ []) ≡ status_of id ps
status_of-append id [] p h = absurd h
status_of-append id (q ∷ ps) p h = ground (arith, status_of-append id ps p)

-- The proposal that is found has the identifier, and settling by its own identifier settles it.
pub find-id :
    (id : String) (ps : List CommandProposal) (p : CommandProposal)
    → find (λ q. q.id == id) ps ≡ some p
    → (p.id ≡ id) × (status_of id ps ≡ some p.status)
find-id id [] p h = cc
find-id id (q ∷ ps) p h = ground (arith, eq_iff q.id id, find-id id ps p)

pub status_of-settle_self :
    (id : String) (status : ProposalStatus) (ps : List CommandProposal) (p : CommandProposal)
    → find (λ q. q.id == id) ps ≡ some p
    → status_of id (settle id status ps) ≡ some status
unfolding settle
status_of-settle_self id status [] p h = cc
status_of-settle_self id status (q ∷ ps) p h = ground (arith, status_of-settle_self id status ps p)

pub All-find :
    (revision : ℤ) (id : String) (ps : List CommandProposal) (p : CommandProposal)
    → All (IsCurrent revision) ps
    → find (λ q. q.id == id) ps ≡ some p
    → IsCurrent revision p
All-find revision id [] p h f = cc
All-find revision id (q ∷ ps) p h f =
    elim (q.id == id)
        as (λ b.
          (if b then some q else find (λ q. q.id == id) ps) ≡ some p → IsCurrent revision p) [
            | true ↦ λ e. ground arith
            | false ↦ λ e. All-find revision id ps p h.1 e
          ]
      f
