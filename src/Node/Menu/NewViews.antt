-- ===== src/Node/Menu/NewViews.antt =====
-- What printing the new views does to a node that has accepted one from the leader.
use pbft_2pc.Prelude.{
  String, Int64, false, List, [], ◌∷◌, ◌++◌, map, All, ok, panic, ◌≡◌, refl, inl, inr, Option-cases,
  value_or, ◌⊎◌, add64,
}
use pbft_2pc.Messages.{
  PrePrepareRequest, SignedViewChangeRequest, NewViewRequest, SignedNewViewRequest,
}
use pbft_2pc.Deps.{Bolt, Codec, Crypto, Format}
use pbft_2pc.Node.{Node, Effect}
use pbft_2pc.Node.Menu.{prepared_lines, new_view_lines, new_views_lines, print_new_views}
use pbft_2pc.Node.ViewChange.{skips_new_view, send_new_view}
use pbft_2pc.Node.ViewChange.Gathering.{IsIn, IsAgreed, reported}
use pbft_2pc.Node.ViewChange.Renewal.{IsBare, send_new_view_keeps}
use pbft_2pc.Node.ViewChange.Handlers.{adopt_new_view}

module _ ⦃codec : Codec⦄ ⦃format : Format⦄ where
  prepared_lines-IsBare :
      (i : Int64) (ps : List PrePrepareRequest) (p : PrePrepareRequest)
      → IsIn p ps
      → All IsBare ps
      → prepared_lines i ps ≡ panic
  unfolding prepared_lines
  prepared_lines-IsBare i [] p member bare = absurd member
  prepared_lines-IsBare i (q ∷ ps) p member (bare, later) = rw bare refl

  new_view_lines-IsBare :
      (r : NewViewRequest) (p : PrePrepareRequest)
      → IsIn p r.prepared
      → All IsBare r.prepared
      → new_view_lines r ≡ panic
  unfolding new_view_lines
  new_view_lines-IsBare r p member bare = rw (prepared_lines-IsBare 1 r.prepared p member bare) refl

  prepared_lines_cases :
      (i : Int64) (ps : List PrePrepareRequest)
      → (prepared_lines i ps ≡ panic) ⊎ ((ls : List String) × (prepared_lines i ps ≡ ok ls))
  unfolding prepared_lines
  prepared_lines_cases i [] = inr ([], refl)
  prepared_lines_cases i (p ∷ ps) = elim (Option-cases p.client_req) [
    | inl bare ↦ inl (rw bare refl)
    | inr (req, known) ↦ elim (prepared_lines_cases (add64 i 1) ps) [
      | inl bad ↦ inl (rw (known, bad) refl)
      | inr (ls, good) ↦ inr (value_or (prepared_lines i (p ∷ ps)) [], rw (known, good) refl)
    ]
  ]

  new_view_lines_cases :
      (r : NewViewRequest)
      → (new_view_lines r ≡ panic) ⊎ ((ls : List String) × (new_view_lines r ≡ ok ls))
  unfolding new_view_lines
  new_view_lines_cases r = elim (prepared_lines_cases 1 r.prepared) [
    | inl bad ↦ inl (rw bad refl)
    | inr (ls, good) ↦ inr (value_or (new_view_lines r) [], rw good refl)
  ]

  new_views_lines-panic :
      (rs : List NewViewRequest) (r : NewViewRequest)
      → new_view_lines r ≡ panic
      → new_views_lines (rs ++ r ∷ []) ≡ panic
  unfolding new_views_lines
  new_views_lines-panic [] r bad = rw bad refl
  new_views_lines-panic (q ∷ rs) r bad = elim (new_view_lines_cases q) [
    | inl worse ↦ rw worse refl
    | inr (ls, good) ↦ rw (good, new_views_lines-panic rs r bad) refl
  ]

module _ ⦃bolt : Bolt⦄ ⦃codec : Codec⦄ ⦃crypto : Crypto⦄ ⦃format : Format⦄ where
  -- If a node that does not skip it sends the new view of some view change messages, which report a
  -- prepared request, and the requests that they report have, for each sequence number, one digest, and
  -- numbers that are not negative, then the message that it sends to its cluster is such that, at a node
  -- that has taken it over, the choice to print the new views ends the process, whatever new views it
  -- had before.
  pub print_new_views-send_new_view :
      (digest_of : Int64 → String) (view : Int64) (certs : List SignedViewChangeRequest)
      (n n' : Node) (p : PrePrepareRequest)
      → skips_new_view view n ≡ false
      → All (IsAgreed digest_of) (reported certs)
      → IsIn p (reported certs)
      → send_new_view view certs n ≡ ok n'
      → (req : SignedNewViewRequest) × (n'.outbox
          ≡ n.outbox ++ map (λ q. Effect.send_new_view q req) (n.client_map n.cluster_id))
        × ((k : Node) → print_new_views (adopt_new_view req.new_view k) ≡ panic)
  unfolding print_new_views adopt_new_view
  print_new_views-send_new_view digest_of view certs n n' p going agreed member h =
      let (req, sent, _, (r, inside, _, _, _), bare) =
        send_new_view_keeps digest_of view certs n n' p going agreed member h in
      (
        req,
        sent,
        λ k.
            new_views_lines-panic k.new_view_certs req.new_view
              (new_view_lines-IsBare req.new_view r inside bare),
      )
