-- ===== src/Events/Webhook/Order.antt =====
-- Which of the events that are emitted a webhook's worker takes, however emitters and worker interleave.
use tokenomics.Base.{
  Bool, true, false, if◌then◌else◌, ◌≡◌, refl, sym, ap, ◌∙◌, ◌≤◌, arith, List, [], ◌∷◌, ◌++◌,
  append_assoc, append-nil, length, length-append, Bool-cases, inl, inr, ltb, not, ltb→lt,
  le_of_not-ltb, ◌⊎◌, ◌<◌, is_nil, ◌&&◌, subst,
}
use tokenomics.Events.{Event}
use tokenomics.Events.Webhook.{
  WebhookConfig, WebhookEmitter, new_webhook_emitter, queue_capacity, matches_filter, emit, work,
  take_first, close, stop, Action, emits, works, closes, stops, act, act_all,
}

-- The events that an action emits and the filter lets pass, and those of a sequence of actions.
abbrev pub passing : WebhookConfig → Action → List Event
passing cfg (emits event) = if matches_filter cfg.events event.type then event ∷ [] else []
passing cfg works = []
passing cfg closes = []
passing cfg stops = []

abbrev pub all_passing : WebhookConfig → List Action → List Event
all_passing cfg [] = []
all_passing cfg (a ∷ cs) = passing cfg a ++ all_passing cfg cs

-- The first list is what is left of the second when some of it is dropped.
pub data IsPart : List Event → List Event → Type 0 where
  none_left : IsPart [] []
  dropped : {xs ys : List Event} (e : Event) → IsPart xs ys → IsPart xs (e ∷ ys)
  taken : {xs ys : List Event} (e : Event) → IsPart xs ys → IsPart (e ∷ xs) (e ∷ ys)

IsPart-taken :
    {xs ys : List Event} (e : Event) → IsPart xs ys → IsPart (xs ++ e ∷ []) (ys ++ e ∷ [])
IsPart-taken e none_left = taken e none_left
IsPart-taken e (dropped d p) = dropped d (IsPart-taken e p)
IsPart-taken e (taken d p) = taken d (IsPart-taken e p)

IsPart-dropped : {xs ys : List Event} (e : Event) → IsPart xs ys → IsPart xs (ys ++ e ∷ [])
IsPart-dropped e none_left = dropped e none_left
IsPart-dropped e (dropped d p) = dropped d (IsPart-dropped e p)
IsPart-dropped e (taken d p) = taken d (IsPart-dropped e p)

-- Of the events `ms` that passed the filter so far: what was taken and waits, in order; all of them, if they are
-- no more than the queue holds.
pub record IsDelivered (cfg : WebhookConfig) (ms : List Event) (w : WebhookEmitter) : Type 0 where
  pub same_cfg : w.cfg ≡ cfg
  pub part : IsPart (w.taken ++ w.queue) ms
  pub bounded : length w.queue ≤ queue_capacity
  pub complete : length ms ≤ queue_capacity → w.taken ++ w.queue ≡ ms

if-IsDelivered :
    {cfg : WebhookConfig} {ms : List Event} {a b : WebhookEmitter} (t : Bool)
    → IsDelivered cfg ms a
    → IsDelivered cfg ms b
    → IsDelivered cfg ms (if t then a else b)
if-IsDelivered true v w = v
if-IsDelivered false v w = w

take_first-IsDelivered :
    (cfg : WebhookConfig) (ms : List Event) (w : WebhookEmitter) (q : List Event)
    → w.queue ≡ q
    → IsDelivered cfg ms w
    → IsDelivered cfg ms (take_first q w)
take_first-IsDelivered cfg ms w [] e v = v
take_first-IsDelivered cfg ms w (event ∷ rest) e v =
    let same : w.taken ++ w.queue ≡ (w.taken ++ event ∷ []) ++ rest =
      ap (λ q. w.taken ++ q) e ∙ sym (append_assoc w.taken (event ∷ []) rest) in
    record {
      same_cfg = v.same_cfg;
      part = subst (λ l. IsPart l ms) same v.part;
      bounded = omega (arith, v.bounded, ap length e);
      complete = λ h. sym same ∙ v.complete h;
    }

emit-IsDelivered :
    (cfg : WebhookConfig) (ms : List Event) (event : Event) (w : WebhookEmitter)
    → IsDelivered cfg ms w
    → IsDelivered cfg (ms ++ passing cfg (emits event)) (emit event w)
unfolding emit
emit-IsDelivered cfg ms event w v =
    let filter = ap (λ c. matches_filter c.events event.type) v.same_cfg in
    elim (Bool-cases (matches_filter cfg.events event.type)) [
      | inr e ↦ rw (filter ∙ e, e, append-nil ms) v
      | inl e ↦
          rw (filter ∙ e, e)
            (elim (Bool-cases (ltb (length w.queue) queue_capacity)) [
              | inl room ↦ rw room (
                  let longer : w.taken ++ (w.queue ++ event ∷ [])
                      ≡ (w.taken ++ w.queue) ++ event ∷ [] =
                    sym (append_assoc w.taken w.queue (event ∷ [])) in
                  record {
                    same_cfg = v.same_cfg;
                    part =
                        subst (λ l. IsPart l (ms ++ event ∷ [])) (sym longer)
                          (IsPart-taken event v.part);
                    bounded = ground (arith, length-append w.queue (event ∷ []));
                    complete = λ h.
                        longer
                        ∙ ap (λ l. l ++ event ∷ [])
                            (v.complete (omega (arith, h, length-append ms (event ∷ []))));
                  })
              | inr full ↦ rw full (record {
                same_cfg = v.same_cfg;
                part = IsPart-dropped event v.part;
                bounded = v.bounded;
                complete = λ h. absurd (overfull h (ground arith));
              })
            ])
    ]
  where
    overfull : length (ms ++ event ∷ []) ≤ queue_capacity → queue_capacity ≤ length w.queue → ⊥
    overfull h full =
        let room : length ms ≤ queue_capacity = omega (arith, h, length-append ms (event ∷ [])) in
        omega (
          arith,
          h,
          full,
          length-append ms (event ∷ []),
          length-append w.taken w.queue,
          ap length (v.complete room),
        )

act-IsDelivered :
    (cfg : WebhookConfig) (ms : List Event) (a : Action) (w : WebhookEmitter)
    → IsDelivered cfg ms w
    → IsDelivered cfg (ms ++ passing cfg a) (act a w)
unfolding act work close stop
act-IsDelivered cfg ms (emits event) w v = emit-IsDelivered cfg ms event w v
act-IsDelivered cfg ms works w v =
    rw (append-nil ms) (if-IsDelivered w.stopped v (take_first-IsDelivered cfg ms w w.queue refl v))
act-IsDelivered cfg ms closes w v =
    rw (append-nil ms)
      (record { same_cfg = v.same_cfg; part = v.part; bounded = v.bounded; complete = v.complete })
act-IsDelivered cfg ms stops w v = rw (append-nil ms) (
    if-IsDelivered (w.closing && is_nil w.queue)
      (record { same_cfg = v.same_cfg; part = v.part; bounded = v.bounded; complete = v.complete })
      v)

act_all-IsDelivered :
    (cfg : WebhookConfig) (ms : List Event) (cs : List Action) (w : WebhookEmitter)
    → IsDelivered cfg ms w
    → IsDelivered cfg (ms ++ all_passing cfg cs) (act_all cs w)
unfolding act_all
act_all-IsDelivered cfg ms [] w v = rw (append-nil ms) v
act_all-IsDelivered cfg ms (a ∷ cs) w v =
    rw⁻¹ (append_assoc ms (passing cfg a) (all_passing cfg cs))
      (act_all-IsDelivered cfg (ms ++ passing cfg a) cs (act a w) (act-IsDelivered cfg ms a w v))

-- No event is emitted after `Close`.
abbrev pub has_emits : List Action → Bool
has_emits [] = false
has_emits (emits event ∷ cs) = true
has_emits (works ∷ cs) = has_emits cs
has_emits (closes ∷ cs) = has_emits cs
has_emits (stops ∷ cs) = has_emits cs

abbrev pub is_quiet : List Action → Bool
is_quiet [] = true
is_quiet (closes ∷ cs) = not (has_emits cs) && is_quiet cs
is_quiet (emits event ∷ cs) = is_quiet cs
is_quiet (works ∷ cs) = is_quiet cs
is_quiet (stops ∷ cs) = is_quiet cs

-- A worker that has returned was told to and left nothing, and nothing comes after.
record IsDrained (cs : List Action) (w : WebhookEmitter) : Type 0 where
  silent : w.closing ≡ true → has_emits cs ≡ false
  drained : w.stopped ≡ true → (w.closing ≡ true) × (w.queue ≡ [])

is_nil-eq : (q : List Event) → is_nil q ≡ true → q ≡ []
is_nil-eq [] e = refl
is_nil-eq (x ∷ q) e = absurd (cc e)

emit-closing : (event : Event) (w : WebhookEmitter) → (emit event w).closing ≡ w.closing
unfolding emit
emit-closing event w = ground arith

emit-stopped : (event : Event) (w : WebhookEmitter) → (emit event w).stopped ≡ w.stopped
unfolding emit
emit-stopped event w = ground arith

stop-IsDrained : (cs : List Action) (w : WebhookEmitter) → IsDrained cs w → IsDrained cs (stop w)
unfolding stop
stop-IsDrained cs w v = elim (Bool-cases (w.closing && is_nil w.queue)) [
  | inr e ↦ rw e v
  | inl e ↦ rw e (record {
    silent = v.silent;
    drained = λ s. (ground (arith, e), is_nil-eq w.queue (ground (arith, e)));
  })
]

work-IsDrained : (cs : List Action) (w : WebhookEmitter) → IsDrained cs w → IsDrained cs (work w)
unfolding work
work-IsDrained cs w v = as_stopped w.stopped refl
  where
    taking : (q : List Event) → w.stopped ≡ false → IsDrained cs (take_first q w)
    taking [] e = v
    taking (event ∷ rest) e = record { silent = v.silent; drained = λ s. absurd (cc (e, s)) }

    as_stopped : (t : Bool) → w.stopped ≡ t → IsDrained cs (if t then w else take_first w.queue w)
    as_stopped true e = v
    as_stopped false e = taking w.queue e

act_all-IsDrained :
    (cs : List Action) (w : WebhookEmitter)
    → is_quiet cs ≡ true
    → IsDrained cs w
    → IsDrained [] (act_all cs w)
unfolding act_all act close
act_all-IsDrained [] w q v = v
act_all-IsDrained (emits event ∷ cs) w q v = act_all-IsDrained cs (emit event w) q (record {
  silent = λ c. absurd (cc (v.silent (sym (emit-closing event w) ∙ c)));
  drained = λ s. absurd (cc (v.silent ((v.drained (sym (emit-stopped event w) ∙ s)).0)));
})
act_all-IsDrained (works ∷ cs) w q v =
    act_all-IsDrained cs (work w) q
      (work-IsDrained cs w (record { silent = v.silent; drained = v.drained }))
act_all-IsDrained (closes ∷ cs) w q v =
    act_all-IsDrained cs (close w) (ground (arith, q))
      (record { silent = λ c. ground (arith, q); drained = λ s. (refl, (v.drained s).1) })
act_all-IsDrained (stops ∷ cs) w q v =
    act_all-IsDrained cs (stop w) q
      (stop-IsDrained cs w (record { silent = v.silent; drained = v.drained }))

-- What has become of the events of a sequence of actions.
pub record IsServed (cfg : WebhookConfig) (cs : List Action) (w : WebhookEmitter) : Type 0 where
  pub part : IsPart (w.taken ++ w.queue) (all_passing cfg cs)
  pub bounded : length w.queue ≤ queue_capacity
  pub complete :
      (queue_capacity < length (all_passing cfg cs)) ⊎ (w.taken ++ w.queue ≡ all_passing cfg cs)
  pub drained : (is_quiet cs ≡ false) ⊎ (w.stopped ≡ false) ⊎ (w.queue ≡ [])

-- However the calls of `Emit` and `Close` and the worker interleave, of a new emitter: the events that
-- the worker has taken, followed by those that wait, are events that were emitted and pass the filter, in their order and each
-- once, and all of them if they are at most 256 in number; at most 256 wait; and where none is emitted after
-- `Close`, none waits any more when the worker has returned.
pub act_all-IsServed :
    (cfg : WebhookConfig) (cs : List Action)
    → IsServed cfg cs (act_all cs (new_webhook_emitter cfg))
unfolding new_webhook_emitter
act_all-IsServed cfg cs =
    let first : IsDelivered cfg [] (new_webhook_emitter cfg) = record {
      same_cfg = refl;
      part = none_left;
      bounded = omega arith;
      complete = λ h. refl;
    } in
    let v = act_all-IsDelivered cfg [] cs (new_webhook_emitter cfg) first in
    let w = act_all cs (new_webhook_emitter cfg) in
    record {
      part = v.part;
      bounded = v.bounded;
      complete = all_or_more v.complete;
      drained = at_end (Bool-cases (is_quiet cs)) (Bool-cases w.stopped);
    }
  where
    all_or_more :
        {P : Type 0}
        → (length (all_passing cfg cs) ≤ queue_capacity → P)
        → (queue_capacity < length (all_passing cfg cs)) ⊎ P
    all_or_more f = elim (Bool-cases (ltb queue_capacity (length (all_passing cfg cs)))) [
      | inl more ↦ inl (ltb→lt queue_capacity (length (all_passing cfg cs)) more)
      | inr few ↦ inr (f (le_of_not-ltb queue_capacity (length (all_passing cfg cs)) few))
    ]

    at_end :
        (is_quiet cs ≡ true) ⊎ (is_quiet cs ≡ false)
        → ((act_all cs (new_webhook_emitter cfg)).stopped ≡ true)
          ⊎ ((act_all cs (new_webhook_emitter cfg)).stopped ≡ false)
        → (is_quiet cs ≡ false)
          ⊎ ((act_all cs (new_webhook_emitter cfg)).stopped ≡ false)
          ⊎ ((act_all cs (new_webhook_emitter cfg)).queue ≡ [])
    at_end (inr loud) o = inl loud
    at_end (inl quiet) (inr runs) = inr (inl runs)
    at_end (inl quiet) (inl stopped_) = inr (
        inr (
          ((act_all-IsDrained cs (new_webhook_emitter cfg) quiet
              (record { silent = λ c. absurd (cc c); drained = λ s. absurd (cc s) })).drained
            stopped_).1))
