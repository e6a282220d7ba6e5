-- ===== src/Batch/Once.antt =====
-- app/batch_tx_manager.go: every message is taken once and in order, and every batch that is taken
-- is broadcast once.
use mathlib.Core.List.{Permᴰ, append_assoc, append-nil}
use mathlib.Core.List.Permᴰ.{nil, cons, swap, trans, symm, middle}
use gitopia_storage.Prelude.{
  ◌≡◌, refl, ap, sym, ◌∙◌, subst, arith, Bool, Option, none, some, List, [], ◌∷◌, ◌++◌, map, All,
}
use gitopia_storage.Batch.{
  BatchTxManager, State, Step, Reach, adds, ticks, ticker_sends, closes, stop_takes, stop_sends,
  here, next, take_batch, add_to_batch, close_stop, and_taken, new_batch_tx_manager,
}

module _ {M : Type 0} where
  -- the messages of the batches, the first batch first
  abbrev pub joined : List (List M) → List M
  joined [] = []
  joined (batch ∷ taken) = joined taken ++ batch

  abbrev pub in_flight : Option (List M) → List (List M)
  in_flight none = []
  in_flight (some batch) = batch ∷ []

  abbrev pub NonEmpty : List M → Type 0
  NonEmpty [] = ⊥
  NonEmpty (m ∷ batch) = Unit

  -- the batches that are broadcast, whether with success or not, or about to be
  abbrev pub handled : State M → List (List M)
  handled s = in_flight s.ticker ++ (in_flight s.stopper ++ map (λ e. e.0) s.broadcasts)

  abbrev Inv : List M → List (List M) → State M → Type 0
  Inv added taken s =
      (joined taken ++ s.manager.tx_queue ≡ added) × Permᴰ taken (handled s) × All NonEmpty taken

  take_batch-Inv :
      (queue : List M) (b c : BatchTxManager M) (batch : Option (List M)) (taken : List (List M))
      → take_batch queue b ≡ (batch, c)
      → b.tx_queue ≡ queue
      → (joined (and_taken batch taken) ++ c.tx_queue ≡ joined taken ++ queue)
        × (All NonEmpty taken → All NonEmpty (and_taken batch taken))
  unfolding take_batch
  take_batch-Inv [] b c batch taken h q =
      let none_taken : none ≡ batch = ap (λ r. r.0) h in
      let same : b ≡ c = ap (λ r. r.1) h in rw (sym none_taken, sym same, q) (refl, λ n. n)
  take_batch-Inv (m ∷ queue) b c batch taken h q =
      let all_taken : some (m ∷ queue) ≡ batch = ap (λ r. r.0) h in
      let reset : record b { tx_queue = [] } ≡ c = ap (λ r. r.1) h in
      rw (sym all_taken, sym reset) (append-nil (joined taken ++ m ∷ queue), λ n. (tt, n))

  added_lem :
      (b : BatchTxManager M) (msgs : List M) (taken : List (List M)) (added : List M)
      → joined taken ++ b.tx_queue ≡ added
      → joined taken ++ (add_to_batch msgs b).tx_queue ≡ added ++ msgs
  unfolding add_to_batch
  added_lem b msgs taken added e =
      sym (append_assoc (joined taken) b.tx_queue msgs) ∙ ap (λ l. l ++ msgs) e

  close_stop_lem : (b c : BatchTxManager M) → close_stop b ≡ some c → c.tx_queue ≡ b.tx_queue
  unfolding close_stop
  close_stop_lem b c h = ground (arith, h)

  take_ticker :
      (batch : Option (List M)) (taken rest : List (List M))
      → Permᴰ taken rest
      → Permᴰ (and_taken batch taken) (in_flight batch ++ rest)
  take_ticker none taken rest p = p
  take_ticker (some batch) taken rest p = cons refl p

  take_stopper :
      (ticker batch : Option (List M)) (taken rest : List (List M))
      → Permᴰ taken (in_flight ticker ++ rest)
      → Permᴰ (and_taken batch taken) (in_flight ticker ++ (in_flight batch ++ rest))
  take_stopper none batch taken rest p = take_ticker batch taken rest p
  take_stopper (some sent) none taken rest p = p
  take_stopper (some sent) (some batch) taken rest p = trans (cons refl p) (swap refl refl)

  abbrev in_hands : Option (List M) → Option (List M) → List (List M × Bool) → List (List M)
  in_hands ticker stopper sent = in_flight ticker ++ (in_flight stopper ++ map (λ e. e.0) sent)

  Step-Inv :
      (s : State M) (added msgs : List M) (taken : List (List M)) (batch : Option (List M))
      (t : State M)
      → Step s msgs batch t
      → Inv added taken s
      → Inv (added ++ msgs) (and_taken batch taken) t
  Step-Inv s added _ taken _ _ (adds msgs) (e, p, n) =
      (added_lem s.manager msgs taken added e, p, n)
  Step-Inv s added _ taken batch _ (ticks {b = b} idle h) (e, p, n) =
      let (join, full) = take_batch-Inv s.manager.tx_queue s.manager b batch taken h refl in
      (
        join ∙ e ∙ sym (append-nil added),
        take_ticker batch taken (in_flight s.stopper ++ map (λ e. e.0) s.broadcasts)
            (subst (λ o. Permᴰ taken (in_hands o s.stopper s.broadcasts)) idle p),
        full n,
      )
  Step-Inv s added _ taken _ _ (ticker_sends sent success h) (e, p, n) = (
    e ∙ sym (append-nil added),
    trans (subst (λ o. Permᴰ taken (in_hands o s.stopper s.broadcasts)) h p)
        (symm (middle sent (in_flight s.stopper) (map (λ e. e.0) s.broadcasts))),
    n,
  )
  Step-Inv s added _ taken _ _ (closes {b = b} h) (e, p, n) = (
    ap (λ q. joined taken ++ q) (close_stop_lem s.manager b h) ∙ e ∙ sym (append-nil added),
    p,
    n,
  )
  Step-Inv s added _ taken batch _ (stop_takes {b = b} closed idle h) (e, p, n) =
      let (join, full) = take_batch-Inv s.manager.tx_queue s.manager b batch taken h refl in
      (
        join ∙ e ∙ sym (append-nil added),
        take_stopper s.ticker batch taken (map (λ e. e.0) s.broadcasts)
            (subst (λ o. Permᴰ taken (in_hands s.ticker o s.broadcasts)) idle p),
        full n,
      )
  Step-Inv s added _ taken _ _ (stop_sends sent success h) (e, p, n) = (
    e ∙ sym (append-nil added),
    subst (λ o. Permᴰ taken (in_hands s.ticker o s.broadcasts)) h p,
    n,
  )

  -- However the callers of `AddToBatch`, the ticker and `Stop` interleave: the batches in the order
  -- in which they are taken, followed by the queue, are the messages in the order in which they
  -- were added, so that none is lost, doubled or overtaken in the queue; and the batches that were
  -- taken are, in some order, those that were broadcast and those that a goroutine is about to
  -- broadcast, none of them empty.
  pub batches_once :
      (added : List M) (taken : List (List M)) (s : State M)
      → Reach added taken s
      → (joined taken ++ s.manager.tx_queue ≡ added) × Permᴰ taken (handled s) × All NonEmpty taken
  unfolding new_batch_tx_manager
  batches_once added taken s here = (refl, nil, tt)
  batches_once added taken s
        (next {s = r} {added = a} {msgs = m} {taken = k} {batch = b} reach step) =
      Step-Inv r a m k b s step (batches_once a k r reach)
