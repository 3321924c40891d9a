-- ===== src/Provider/Delivery.antt =====
-- What becomes of the edits through requests that overlap with edits and with each other, and that
-- succeed, fail, or succeed at the server only.
use realtime_collaborative_e.Base.{
  ℕ, ◌+◌, ◌≡◌, refl, sym, ap, subst, ◌∙◌, ◌⊎◌, inl, inr, false, Option, none, some, List, [], ◌∷◌,
  ◌++◌, All, arith, Option-cases,
}
use mathlib.Core.List.{append_assoc, append-nil}
use realtime_collaborative_e.Platform.{Yjs}
use realtime_collaborative_e.Provider.{
  Provider, Reason, enqueue, apply_all, flush_start, flush_ok, flush_failed, restore,
}

some_inj : {A : Type 0} {x y : A} → some x ≡ some y → x ≡ y
some_inj e = cc

module _ (yjs : Yjs) (max_backoff : ℕ) where
  open yjs use {Bytes, YDoc, empty, apply, encode}

  -- The provider, the server's document, the requests under way that have not reached the server,
  -- and those that the server has answered and whose response is under way.
  pub record Exchange : Type 0 where
    pub provider : Provider Bytes
    pub doc : YDoc
    pub sent : List Bytes
    pub served : List Bytes

  -- The exchanges that come from one exchange, with the edits made on the way, in order. A request is
  -- its start, what the server does with it, and its end at the client; between them edits are made
  -- and other requests start. It fails before or after the server has applied the update.
  pub data Reach (x₀ : Exchange) : Exchange → List Bytes → Type 0 where
    here : Reach x₀ x₀ []
    edits :
        {x : Exchange} {us : List Bytes}
        → Reach x₀ x us
        → (u : Bytes) → Reach x₀ (record x { provider = enqueue yjs x.provider u }) (us ++ u ∷ [])
    sends_none :
        {x : Exchange} {us : List Bytes}
        → Reach x₀ x us
        → (flush_start yjs x.provider).1 ≡ none
        → Reach x₀ (record x { provider = (flush_start yjs x.provider).0 }) us
    sends :
        {x : Exchange} {us : List Bytes}
        → Reach x₀ x us
        → (m : Bytes) → (flush_start yjs x.provider).1 ≡ some m
        → Reach x₀
            (record x { provider = (flush_start yjs x.provider).0; sent = x.sent ++ m ∷ [] })
            us
    serves :
        {x : Exchange} {us : List Bytes}
        → Reach x₀ x us
        → (before : List Bytes) (m : Bytes) (behind : List Bytes) (doc' : YDoc)
        → x.sent ≡ before ++ m ∷ behind
        → apply x.doc m ≡ some doc'
        → Reach x₀ (record x { doc = doc'; sent = before ++ behind; served = m ∷ x.served }) us
    fails :
        {x : Exchange} {us : List Bytes}
        → Reach x₀ x us
        → (before : List Bytes) (m : Bytes) (behind : List Bytes) → x.sent ≡ before ++ m ∷ behind
        → (reason : Reason) (retry : Option ℕ) (jitter : ℕ)
        → Reach x₀
            (record x {
              provider = flush_failed yjs max_backoff x.provider m reason retry jitter;
              sent = before ++ behind;
            })
            us
    loses :
        {x : Exchange} {us : List Bytes}
        → Reach x₀ x us
        → (before : List Bytes) (m : Bytes) (behind : List Bytes) → x.served ≡ before ++ m ∷ behind
        → (reason : Reason) (retry : Option ℕ) (jitter : ℕ)
        → Reach x₀
            (record x {
              provider = flush_failed yjs max_backoff x.provider m reason retry jitter;
              served = before ++ behind;
            })
            us
    answers :
        {x : Exchange} {us : List Bytes}
        → Reach x₀ x us
        → (before : List Bytes) (m : Bytes) (behind : List Bytes) → x.served ≡ before ++ m ∷ behind
        → (now : ℕ)
        → Reach x₀
            (record x { provider = flush_ok yjs x.provider now; served = before ++ behind })
            us

  -- The updates applied to what there is.
  abbrev pub continue : Option YDoc → List Bytes → Option YDoc
  continue none us = none
  continue (some d) us = apply_all yjs d us

  -- What the server will hold once the requests under way and the queue have reached it.
  abbrev pub owed : Exchange → Option YDoc
  owed x = apply_all yjs x.doc (x.sent ++ x.provider.queue)

  apply_all-one : (d : YDoc) (u : Bytes) → apply_all yjs d (u ∷ []) ≡ apply d u
  apply_all-one d u = elim (Option-cases (apply d u)) [
    | inl e ↦ rw (e, apply_all)
    | inr (d', e) ↦ rw (e, apply_all)
  ]

  apply_all-append :
      (d : YDoc) (us vs : List Bytes)
      → apply_all yjs d (us ++ vs) ≡ continue (apply_all yjs d us) vs
  apply_all-append d [] vs = refl
  apply_all-append d (u ∷ us) vs = elim (Option-cases (apply d u)) [
    | inl e ↦ rw (e, apply_all)
    | inr (d', e) ↦ rw (e, apply_all) (apply_all-append d' us vs)
  ]

  continue-nil : (o : Option YDoc) → continue o [] ≡ o
  continue-nil none = refl
  continue-nil (some d) = refl

  continue-append :
      (o : Option YDoc) (us vs : List Bytes) → continue o (us ++ vs) ≡ continue (continue o us) vs
  continue-append none us vs = refl
  continue-append (some d) us vs = apply_all-append d us vs

  enqueue-queue : (p : Provider Bytes) (u : Bytes) → (enqueue yjs p u).queue ≡ p.queue ++ u ∷ []
  unfolding enqueue
  enqueue-queue p u = ground arith

  -- What `flush` sends, and what it leaves in the queue.
  abbrev Sent : Provider Bytes → Type 0
  Sent p =
      (((flush_start yjs p).1 ≡ none) × ((flush_start yjs p).0.queue ≡ p.queue))
      ⊎ ((d : YDoc) × (apply_all yjs empty p.queue ≡ some d)
          × ((flush_start yjs p).1 ≡ some (encode d))
          × ((flush_start yjs p).0.queue ≡ []))

  flush_start-queue :
      (p : Provider Bytes) (d : YDoc) (q : List Bytes)
      → apply_all yjs empty p.queue ≡ some d
      → p.queue ≡ q
      → Sent p
  unfolding flush_start
  flush_start-queue p d [] e h = inl (rw (h, flush_start, h), rw (h, flush_start))
  flush_start-queue p d (u ∷ us) e h = inr (d, e, rw (e, h, flush_start), rw (e, flush_start))

  flush_start-Sent : (p : Provider Bytes) → Sent p
  unfolding flush_start
  flush_start-Sent p = elim (Option-cases (apply_all yjs empty p.queue)) [
    | inl e ↦ inl (rw (e, flush_start), rw (e, flush_start))
    | inr (d, e) ↦ flush_start-queue p d p.queue e refl
  ]

  flush_failed-queue :
      (p : Provider Bytes) (merged : Bytes) (reason : Reason) (retry : Option ℕ) (jitter : ℕ)
      → (flush_failed yjs max_backoff p merged reason retry jitter).queue ≡ p.queue ++ merged ∷ []
  unfolding flush_failed
  flush_failed-queue p merged reason retry jitter =
      enqueue-queue (record p { consecutive_failures = p.consecutive_failures + 1 }) merged

  flush_ok-queue : (p : Provider Bytes) (now : ℕ) → (flush_ok yjs p now).queue ≡ p.queue
  unfolding flush_ok
  flush_ok-queue p now = refl

  -- The document has the updates.
  abbrev pub Has : YDoc → List Bytes → Type 0
  Has d us = All (λ u. apply d u ≡ some d) us

  Has-out :
      (d : YDoc) (a : List Bytes) (m : Bytes) (b : List Bytes)
      → Has d (a ++ m ∷ b)
      → (apply d m ≡ some d) × Has d (a ++ b)
  Has-out d [] m b h = h
  Has-out d (u ∷ a) m b (h, hs) = let (e, rest) = Has-out d a m b hs in (e, (h, rest))

  module _
      (merges : (s d : YDoc) (us : List Bytes)
        → apply_all yjs empty us ≡ some d
        → apply s (encode d) ≡ apply_all yjs s us)
      (commutes : (s : YDoc) (u v : Bytes)
        → apply_all yjs s (u ∷ v ∷ []) ≡ apply_all yjs s (v ∷ u ∷ []))
      (idempotent : (s d : YDoc) (u : Bytes) → apply s u ≡ some d → apply d u ≡ some d) where
    swap :
        (d : YDoc) (u v : Bytes) (us : List Bytes)
        → apply_all yjs d (u ∷ v ∷ us) ≡ apply_all yjs d (v ∷ u ∷ us)
    swap d u v us =
        apply_all-append d (u ∷ v ∷ []) us
        ∙ ap (λ o. continue o us) (commutes d u v)
        ∙ sym (apply_all-append d (v ∷ u ∷ []) us)

    after_front :
        (d d' : YDoc) (m : Bytes) (us : List Bytes)
        → apply d m ≡ some d'
        → apply_all yjs d (m ∷ us) ≡ apply_all yjs d' us
    after_front d d' m us e = rw (e, apply_all)

    -- An update may be applied first.
    to_front :
        (d : YDoc) (a : List Bytes) (m : Bytes) (b : List Bytes)
        → apply_all yjs d (a ++ m ∷ b) ≡ apply_all yjs d (m ∷ a ++ b)
    to_front d [] m b = refl
    to_front d (u ∷ a) m b =
        let behind : apply_all yjs d (u ∷ (a ++ m ∷ b)) ≡ apply_all yjs d (u ∷ m ∷ (a ++ b)) =
          elim (Option-cases (apply d u)) [
            | inl e ↦ rw (e, apply_all)
            | inr (d', e) ↦
                after_front d d' u _ e
                ∙ to_front d' a m b
                ∙ sym (after_front d d' u (m ∷ (a ++ b)) e)
          ] in
        behind ∙ swap d u m (a ++ b)

    apply-Has :
        (d d' : YDoc) (m : Bytes) (us : List Bytes) → apply d m ≡ some d' → Has d us → Has d' us
    apply-Has d d' m [] e h = tt
    apply-Has d d' m (u ∷ us) e (h, hs) = (
      sym (apply_all-one d' u)
          ∙ sym (after_front d d' m (u ∷ []) e)
          ∙ commutes d m u
          ∙ after_front d d u (m ∷ []) h
          ∙ apply_all-one d m
          ∙ e,
      apply-Has d d' m us e hs,
    )

    -- An update that moves from the requests to the end of the queue changes nothing owed.
    requeued :
        (d : YDoc) (a : List Bytes) (m : Bytes) (b q : List Bytes)
        → apply_all yjs d ((a ++ b) ++ (q ++ m ∷ [])) ≡ apply_all yjs d ((a ++ m ∷ b) ++ q)
    requeued d a m b q =
        let left : (a ++ b) ++ (q ++ m ∷ []) ≡ (a ++ (b ++ q)) ++ m ∷ [] = simp append_assoc in
        let right : (a ++ m ∷ b) ++ q ≡ a ++ m ∷ (b ++ q) = append_assoc a (m ∷ b) q in
        ap (apply_all yjs d) left
        ∙ to_front d (a ++ (b ++ q)) m []
        ∙ ap (λ l. apply_all yjs d (m ∷ l)) (append-nil (a ++ (b ++ q)))
        ∙ sym (to_front d a m (b ++ q))
        ∙ ap (apply_all yjs d) (sym right)

    -- One that the document has may be queued again.
    queued_again :
        (d : YDoc) (us q : List Bytes) (m : Bytes)
        → apply d m ≡ some d
        → apply_all yjs d (us ++ (q ++ m ∷ [])) ≡ apply_all yjs d (us ++ q)
    queued_again d us q m h =
        ap (apply_all yjs d) (sym (append_assoc us q (m ∷ [])))
        ∙ to_front d (us ++ q) m []
        ∙ ap (λ l. apply_all yjs d (m ∷ l)) (append-nil (us ++ q))
        ∙ after_front d d m (us ++ q) h

    -- One that is applied by the server is no longer owed.
    applied_first :
        (d d' : YDoc) (a : List Bytes) (m : Bytes) (b q : List Bytes)
        → apply d m ≡ some d'
        → apply_all yjs d' ((a ++ b) ++ q) ≡ apply_all yjs d ((a ++ m ∷ b) ++ q)
    applied_first d d' a m b q e =
        sym (after_front d d' m ((a ++ b) ++ q) e)
        ∙ ap (λ l. apply_all yjs d (m ∷ l)) (append_assoc a b q)
        ∙ sym (to_front d a m (b ++ q))
        ∙ ap (apply_all yjs d) (sym (append_assoc a (m ∷ b) q))

    -- A merged update does what the queue that it was made from does.
    merged-owed :
        (o : Option YDoc) (d : YDoc) (q : List Bytes)
        → apply_all yjs empty q ≡ some d
        → continue o (encode d ∷ []) ≡ continue o q
    merged-owed none d q e = refl
    merged-owed (some s) d q e = apply_all-one s (encode d) ∙ merges s d q e

    sent-owed :
        (p : Provider Bytes) (doc : YDoc) (sent : List Bytes) (m : Bytes)
        → (flush_start yjs p).1 ≡ some m
        → apply_all yjs doc ((sent ++ m ∷ []) ++ (flush_start yjs p).0.queue)
          ≡ apply_all yjs doc (sent ++ p.queue)
    sent-owed p doc sent m h = elim (flush_start-Sent p) [
      | inl (out, _) ↦ cc
      | inr (d, e, out, q) ↦
          let same : encode d ≡ m = some_inj (sym out ∙ h) in
          ap (λ l. apply_all yjs doc ((sent ++ m ∷ []) ++ l)) q
          ∙ ap (apply_all yjs doc) (append-nil (sent ++ m ∷ []))
          ∙ apply_all-append doc sent (m ∷ [])
          ∙ ap (λ n. continue (apply_all yjs doc sent) (n ∷ [])) (sym same)
          ∙ merged-owed (apply_all yjs doc sent) d p.queue e
          ∙ sym (apply_all-append doc sent p.queue)
    ]

    none-owed :
        (p : Provider Bytes) → (flush_start yjs p).1 ≡ none → (flush_start yjs p).0.queue ≡ p.queue
    none-owed p h = elim (flush_start-Sent p) [ inl (_, q) ↦ q | inr (d, e, out, q) ↦ cc ]

    edited-owed :
        (x : Exchange) (u : Bytes)
        → owed (record x { provider = enqueue yjs x.provider u }) ≡ continue (owed x) (u ∷ [])
    edited-owed x u =
        ap (λ q. apply_all yjs x.doc (x.sent ++ q)) (enqueue-queue x.provider u)
        ∙ ap (apply_all yjs x.doc) (sym (append_assoc x.sent x.provider.queue (u ∷ [])))
        ∙ apply_all-append x.doc (x.sent ++ x.provider.queue) (u ∷ [])

    -- What a session owes, and that the server has the updates that it has answered.
    abbrev Kept : Exchange → Exchange → List Bytes → Type 0
    Kept x₀ x us = (owed x ≡ continue (owed x₀) us) × Has x.doc x.served

    Reach-Kept :
        {x₀ x : Exchange} {us : List Bytes} → Has x₀.doc x₀.served → Reach x₀ x us → Kept x₀ x us
    Reach-Kept {x₀} h here = (sym (continue-nil (owed x₀)), h)
    Reach-Kept {x₀} h (edits {x} {us} r u) =
        let (o, has) = Reach-Kept h r in
        (
          edited-owed x u
              ∙ ap (λ o. continue o (u ∷ [])) o
              ∙ sym (continue-append (owed x₀) us (u ∷ [])),
          has,
        )
    Reach-Kept h (sends_none {x} r e) =
        let (o, has) = Reach-Kept h r in
        (ap (λ q. apply_all yjs x.doc (x.sent ++ q)) (none-owed x.provider e) ∙ o, has)
    Reach-Kept h (sends {x} r m e) =
        let (o, has) = Reach-Kept h r in (sent-owed x.provider x.doc x.sent m e ∙ o, has)
    Reach-Kept h (serves {x} r a m b doc' e ap_ok) =
        let (o, has) = Reach-Kept h r in
        (
          applied_first x.doc doc' a m b x.provider.queue ap_ok
              ∙ ap (λ l. apply_all yjs x.doc (l ++ x.provider.queue)) (sym e)
              ∙ o,
          (idempotent x.doc doc' m ap_ok, apply-Has x.doc doc' m x.served ap_ok has),
        )
    Reach-Kept h (fails {x} r a m b e reason retry jitter) =
        let (o, has) = Reach-Kept h r in
        (
          ap (λ q. apply_all yjs x.doc ((a ++ b) ++ q))
                (flush_failed-queue x.provider m reason retry jitter)
              ∙ requeued x.doc a m b x.provider.queue
              ∙ ap (λ l. apply_all yjs x.doc (l ++ x.provider.queue)) (sym e)
              ∙ o,
          has,
        )
    Reach-Kept h (loses {x} r a m b e reason retry jitter) =
        let (o, has) = Reach-Kept h r in
        let (here_too, rest) = Has-out x.doc a m b (subst (Has x.doc) e has) in
        (
          ap (λ q. apply_all yjs x.doc (x.sent ++ q))
                (flush_failed-queue x.provider m reason retry jitter)
              ∙ queued_again x.doc x.sent x.provider.queue m here_too
              ∙ o,
          rest,
        )
    Reach-Kept h (answers {x} r a m b e now) =
        let (o, has) = Reach-Kept h r in
        (
          ap (λ q. apply_all yjs x.doc (x.sent ++ q)) (flush_ok-queue x.provider now) ∙ o,
          (Has-out x.doc a m b (subst (Has x.doc) e has)).1,
        )

    -- Updates commute and may be applied twice, and the whole state of a document that updates make
    -- does, applied to another document, what the updates do; and a server that accepts an update
    -- applies it to its document, which nobody else changes. Then, from a provider with no request
    -- under way, whatever edits are queued while requests are under way, however many of these
    -- overlap, and whether each fails before it has reached the server or after the server has
    -- applied it, or comes back: the server's document, with what is under way to it and the queue,
    -- makes what the queued edits, in order, make of the document and the queue before. The page is
    -- not reloaded meanwhile.
    pub Reach-delivers :
        {x₀ x : Exchange} {us : List Bytes}
        → x₀.sent ≡ []
        → x₀.served ≡ []
        → Reach x₀ x us
        → apply_all yjs x.doc (x.sent ++ x.provider.queue)
          ≡ continue (apply_all yjs x₀.doc x₀.provider.queue) us
    Reach-delivers {x₀} {x} {us} none_sent none_served r =
        let start : Has x₀.doc x₀.served = subst (Has x₀.doc) (sym none_served) tt in
        (Reach-Kept start r).0
        ∙ ap (λ l. continue (apply_all yjs x₀.doc (l ++ x₀.provider.queue)) us) none_sent

-- A defect: an edit made while the timer is armed is not saved. If the page is closed before the
-- next request, the queue that the next page restores is without it.
enqueue-unsaved :
    (yjs : Yjs) (p : Provider yjs.Bytes) (first second : yjs.Bytes)
    → p.timer ≡ false
    → p.queue ≡ []
    → let p' = enqueue yjs (enqueue yjs p first) second in
      (p'.queue ≡ first ∷ second ∷ []) × ((restore yjs p').queue ≡ first ∷ [])
unfolding enqueue restore
enqueue-unsaved yjs p first second off none_yet =
    (rw (off, none_yet, enqueue), rw (off, none_yet, enqueue, restore))
