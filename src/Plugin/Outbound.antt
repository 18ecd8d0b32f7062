-- ===== src/Plugin/Outbound.antt =====
-- What the worker of crates/tak-plugin-host/src/host.rs puts into the outbound channel.
use tak_rs.Common.{
  ℕ, zero, suc, ◌+◌, ◌-◌, ◌%◌, ◌^◌, ◌<◌, Bool, true, false, Option, none, some, List, [], ◌∷◌, ◌++◌,
  length, take, ltb, if◌then◌else◌, ◌≡◌, refl, arith, append_assoc, append-nil, sym, ap, ◌∙◌,
  length-append,
}
use mathlib.Core.Path.{subst}
use tak_rs.Bus.Platform.{Sent, sent, full, closed}
use tak_rs.Plugin.{PluginEvent, Queue, QueueLaws, count_full}
use tak_rs.Plugin.Worker.{
  Action, pass, drop, replace, Component, Worker, act, after_call, worker_loop, answers,
  replacements,
}

module _ {F B : Type 0} (component : Component F B) (outbound : Queue B)
    (laws : QueueLaws outbound) where
  open component use {Instance, call_on_inbound}
  open laws use {queued, capacity, is_closed}

  -- The outbound channel took as many of the frames as it had room for, in order, and the others are
  -- counted; each answer is counted too.
  pub record Sends (actions : List (Action B)) (w w' : Worker component outbound) : Type 0 where
    pub frames :
        queued w'.outbound_tx
        ≡ queued w.outbound_tx
          ++ take (capacity w.outbound_tx - length (queued w.outbound_tx)) (replacements actions)
    pub drops :
        w'.outbound_dropped
        ≡ (w.outbound_dropped
            + (length (replacements actions)
                - (capacity w.outbound_tx - length (queued w.outbound_tx))))
          % 2 ^ 64
    pub calls : w'.processed ≡ (w.processed + length actions) % 2 ^ 64

  record IsOpen (w : Worker component outbound) : Type 0 where
    open_ : is_closed w.outbound_tx ≡ false
    small : w.outbound_dropped < 2 ^ 64
    few : w.processed < 2 ^ 64

  -- What a `try_send` on an open channel does, by the room that there is.
  has_room :
      (c : outbound.Chan) (frame : B) (n : ℕ)
      → is_closed c ≡ false
      → ltb (length (queued c)) (capacity c) ≡ true
      → (queued (outbound.try_send c frame).1 ≡ queued c ++ (frame ∷ []))
        × (count_full (outbound.try_send c frame).0 n ≡ n)
  has_room c frame n e b =
      (rw (laws.send-queued c frame, e, b) refl, rw (laws.send-result c frame, e, b) refl)

  is_full :
      (c : outbound.Chan) (frame : B) (n : ℕ)
      → is_closed c ≡ false
      → ltb (length (queued c)) (capacity c) ≡ false
      → (queued (outbound.try_send c frame).1 ≡ queued c)
        × (count_full (outbound.try_send c frame).0 n ≡ (n + 1) % 2 ^ 64)
  is_full c frame n e b =
      (rw (laws.send-queued c frame, e, b) refl, rw (laws.send-result c frame, e, b) refl)

  -- One answer, and then the others.
  Sends-cons :
      (action : Action B) (actions : List (Action B)) (i : Instance)
      (w w' : Worker component outbound)
      → is_closed w.outbound_tx ≡ false
      → Sends actions (after_call component outbound (some action, i) w).1 w'
      → Sends (action ∷ actions) w w'
  unfolding after_call act
  Sends-cons pass actions i w w' o s = record {
    frames = s.frames;
    drops = s.drops;
    calls = omega (arith, s.calls);
  }
  Sends-cons drop actions i w w' o s = record {
    frames = s.frames;
    drops = s.drops;
    calls = omega (arith, s.calls);
  }
  Sends-cons (replace frame) actions i w w' o s =
      go (ltb (length (queued w.outbound_tx)) (capacity w.outbound_tx)) refl
    where
      tx : outbound.Chan
      tx = (outbound.try_send w.outbound_tx frame).1

      room : ℕ
      room = capacity w.outbound_tx - length (queued w.outbound_tx)

      go :
          (b : Bool)
          → ltb (length (queued w.outbound_tx)) (capacity w.outbound_tx) ≡ b
          → Sends (replace frame ∷ actions) w w'
      go true e =
          let (q, n) = has_room w.outbound_tx frame w.outbound_dropped o e in
          let smaller : capacity tx - length (queued tx) ≡ room - 1 = omega (
            arith,
            laws.send-capacity w.outbound_tx frame,
            ap length q,
            length-append (queued w.outbound_tx) (frame ∷ []),
          ) in
          record {
            frames =
                s.frames
                ∙ ap (λ k. queued tx ++ take k (replacements actions)) smaller
                ∙ ap (λ t. t ++ take (room - 1) (replacements actions)) q
                ∙ append_assoc (queued w.outbound_tx) (frame ∷ [])
                    (take (room - 1) (replacements actions))
                ∙ ap (λ k. queued w.outbound_tx ++ take k (frame ∷ replacements actions))
                    {x = suc (room - 1)} (ground (arith, e));
            drops = ground (arith, s.drops, smaller, n, e);
            calls = omega (arith, s.calls);
          }
      go false e =
          let (q, n) = is_full w.outbound_tx frame w.outbound_dropped o e in
          let smaller : capacity tx - length (queued tx) ≡ 0 =
            ground (arith, laws.send-capacity w.outbound_tx frame, ap length q, e) in
          record {
            frames =
                s.frames
                ∙ ap (λ k. queued tx ++ take k (replacements actions)) smaller
                ∙ ap (λ t. t ++ []) q
                ∙ ap (λ k. queued w.outbound_tx ++ take k (frame ∷ replacements actions)) {x = 0}
                    (ground (arith, e));
            drops = ground (arith, s.drops, smaller, n, e);
            calls = omega (arith, s.calls);
          }

  Sends-none :
      (w : Worker component outbound) (i : Instance)
      → w.outbound_dropped < 2 ^ 64
      → w.processed < 2 ^ 64
      → Sends [] w (record w { instance_ = i })
  Sends-none w i d p = record {
    frames = sym (
        ap (λ t. queued w.outbound_tx ++ t)
          (take_nil (capacity w.outbound_tx - length (queued w.outbound_tx)))
        ∙ append-nil (queued w.outbound_tx));
    drops = omega arith;
    calls = omega arith;
  }
    where
      take_nil : (n : ℕ) → take {A = B} n [] ≡ []
      take_nil zero = refl
      take_nil (suc n) = refl

  count_full-lt : (r : Sent) (n : ℕ) → n < 2 ^ 64 → count_full r n < 2 ^ 64
  count_full-lt sent n h = h
  count_full-lt full n h = omega arith
  count_full-lt closed n h = h

  after_answer :
      (action : Action B) (i : Instance) (w : Worker component outbound)
      → is_closed w.outbound_tx ≡ false
      → w.outbound_dropped < 2 ^ 64
      → (is_closed (after_call component outbound (some action, i) w).1.outbound_tx ≡ false)
        × ((after_call component outbound (some action, i) w).1.outbound_dropped < 2 ^ 64)
        × ((after_call component outbound (some action, i) w).1.processed < 2 ^ 64)
        × ((after_call component outbound (some action, i) w).1.instance_ ≡ i)
  unfolding after_call act
  after_answer pass i w o d = (o, d, omega arith, refl)
  after_answer drop i w o d = (o, d, omega arith, refl)
  after_answer (replace frame) i w o d = (
    laws.send-is_closed w.outbound_tx frame ∙ o,
    count_full-lt (outbound.try_send w.outbound_tx frame).0 w.outbound_dropped d,
    omega arith,
    refl,
  )

  -- A worker with an open outbound channel that nobody empties meanwhile: the frames of its
  -- component's replacements up to the first trap are queued in order as long as there is room, each
  -- of the others is counted as dropped, and the answers are counted, on 64 bits.
  pub worker_loop-Sends :
      (events : List (PluginEvent F B)) (w : Worker component outbound)
      → is_closed w.outbound_tx ≡ false
      → w.outbound_dropped < 2 ^ 64
      → w.processed < 2 ^ 64
      → Sends
          (answers component outbound events w.instance_)
          w
          (worker_loop component outbound events w)
  unfolding worker_loop after_call
  worker_loop-Sends [] w o d p = Sends-none w w.instance_ d p
  worker_loop-Sends (event ∷ events) w o d p =
      go (call_on_inbound w.instance_ event) (λ w'. worker_loop-Sends events w')
    where
      go :
          (r : Option (Action B) × Instance)
          → ((w' : Worker component outbound)
              → is_closed w'.outbound_tx ≡ false
              → w'.outbound_dropped < 2 ^ 64
              → w'.processed < 2 ^ 64
              → Sends
                  (answers component outbound events w'.instance_)
                  w'
                  (worker_loop component outbound events w'))
          → Sends
              (elim r.0 [
                | none ↦ []
                | some action ↦ action ∷ answers component outbound events r.1
              ])
              w
              (if (after_call component outbound r w).0
                then worker_loop component outbound events (after_call component outbound r w).1
                else (after_call component outbound r w).1)
      go (none, i) ih = Sends-none w i d p
      go (some action, i) ih =
          let (o', d', p', same) = after_answer action i w o d in
          Sends-cons action (answers component outbound events i) i w _ o (
            subst
              (λ j.
                Sends (answers component outbound events j)
                  (after_call component outbound (some action, i) w).1
                  (worker_loop component outbound events
                    (after_call component outbound (some action, i) w).1))
              same (ih (after_call component outbound (some action, i) w).1 o' d' p'))
