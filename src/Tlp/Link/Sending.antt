-- ===== src/Tlp/Link/Sending.antt =====
-- `do_send_tlp_raw` and `__pcie_tlp_send_tlp` of libsimbus/simbus_pcie_tlp_tlp.c with a receiver
-- that is always ready.
use simbus.Base.{
  ℕ, zero, suc, ◌+◌, ◌/◌, ◌≤◌, ◌≡◌, ◌∙◌, refl, ap, true, false, List, [], ◌∷◌, ◌++◌, arith, length,
  ok, Cmd, and_then, fault,
}
use simbus.Wire.{bit_0, bit_1, is_bit}
use simbus.Tlp.{Bus}
use simbus.Tlp.Stream.{drive, advance, settle}
use simbus.Tlp.Link.{send_raw, unqueue, drain, send_tlp}

-- The clock that changes the bus by `step`.
abbrev pub ticks : (Bus → Bus) → Cmd Bus (Unit {0})
ticks step b = ok tt (step b)

-- The stream is idle, and the queue is the one given.
abbrev pub Idle : List (List ℕ) → Bus → Type 0
Idle queue b = (b.m_axis_rx_tvalid ≡ bit_0) × (b.m_axis_rx_tlast ≡ bit_0) × (b.tlp_out_list ≡ queue)

-- The round of `send_raw` after its clock.
abbrev round : (Bus → Bus) → ℕ → List ℕ → Bus → Unit {0} → Cmd Bus (Unit {0})
round step fuel words b u b' = elim (is_bit b'.m_axis_rx_tready bit_1) [
  | true ↦ send_raw (ticks step) fuel (advance words) (settle (advance words) b')
  | false ↦ send_raw (ticks step) fuel words b'
]

module _ (step : Bus → Bus) (ready : (c : Bus) → is_bit ((step c).m_axis_rx_tready) bit_1 ≡ true)
    (keeps : (c : Bus) → (step c).tlp_out_list ≡ c.tlp_out_list) where
  accepted :
      (fuel w : ℕ) (words : List ℕ) (b : Bus)
      → send_raw (ticks step) (suc fuel) (w ∷ words) b
        ≡ send_raw
            (ticks step)
            fuel
            (advance (w ∷ words))
            (settle (advance (w ∷ words)) (step (drive (w ∷ words) b)))
  unfolding send_raw
  accepted fuel w words b =
      ap
        (λ t. elim t [
          | true ↦
              send_raw (ticks step) fuel (advance (w ∷ words))
                (settle (advance (w ∷ words)) (step (drive (w ∷ words) b)))
          | false ↦ send_raw (ticks step) fuel (w ∷ words) (step (drive (w ∷ words) b))
        ])
        (ready (drive (w ∷ words) b))

  pub send_raw-ready :
      (fuel w : ℕ) (words : List ℕ) (b : Bus)
      → length words / 2 + 2 ≤ fuel
      → (b' : Bus) × (send_raw (ticks step) fuel (w ∷ words) b ≡ ok tt b') × Idle b.tlp_out_list b'
  unfolding send_raw drive settle advance
  send_raw-ready zero w words b enough = absurd (omega arith)
  send_raw-ready (suc zero) w words b enough = absurd (omega arith)
  send_raw-ready (suc (suc fuel)) w [] b enough =
      let c = step (drive (w ∷ []) b) in
      (settle [] c, accepted (suc fuel) w [] b, (refl, refl, keeps (drive (w ∷ []) b)))
  send_raw-ready (suc (suc fuel)) w (v ∷ []) b enough =
      let c = step (drive (w ∷ v ∷ []) b) in
      (settle [] c, accepted (suc fuel) w (v ∷ []) b, (refl, refl, keeps (drive (w ∷ v ∷ []) b)))
  send_raw-ready (suc (suc fuel)) w (v ∷ x ∷ rest) b enough =
      let c = step (drive (w ∷ v ∷ x ∷ rest) b) in
      let (b', runs, (valid, last, queue)) = send_raw-ready (suc fuel) x rest c (omega arith) in
      (
        b',
        accepted (suc fuel) w (v ∷ x ∷ rest) b ∙ runs,
        (valid, last, queue ∙ keeps (drive (w ∷ v ∷ x ∷ rest) b)),
      )

  drained :
      (fuel : ℕ) (w : ℕ) (words : List ℕ) (b : Bus)
      → b.tlp_out_list ≡ (w ∷ words) ∷ []
      → length words / 2 + 2 ≤ fuel
      → (b' : Bus) × (drain (ticks step) (suc fuel) b ≡ ok tt b') × Idle [] b'
  unfolding drain unqueue
  drained zero w words b queue enough = absurd (omega arith)
  drained (suc fuel) w words b queue enough =
      let (c, runs, (valid, last, left)) =
        send_raw-ready (suc (suc fuel)) w words b (omega arith) in
      (
        record c { tlp_out_list = [] },
        ap
              (λ q. elim q [
                | [] ↦ ok tt b
                | cur ∷ queued ↦
                    and_then
                      (and_then (send_raw (ticks step) (suc (suc fuel)) cur b) (λ _. unqueue))
                      (λ _. drain (ticks step) (suc fuel))
              ])
              queue
            ∙ ap (λ r. and_then (and_then r (λ _. unqueue)) (λ _. drain (ticks step) (suc fuel)))
                runs
            ∙ ap
                (λ q.
                  and_then
                    (elim q [
                      | [] ↦ fault
                      | cur ∷ queued ↦ ok tt (record c { tlp_out_list = queued })
                    ])
                    (λ _. drain (ticks step) (suc fuel)))
                (left ∙ queue),
        (valid, last, refl),
      )

  -- With an empty queue, a receiver that is ready at each clock, and clocks that queue no other TLP,
  -- `__pcie_tlp_send_tlp` returns: the stream is idle and the queue is empty again. The fuel needed is
  -- one round for each two words, and two or three more.
  pub send_tlp-ready :
      (fuel w : ℕ) (words : List ℕ) (b : Bus)
      → b.tlp_out_list ≡ []
      → length words / 2 + 3 ≤ fuel
      → (b' : Bus) × (send_tlp (ticks step) fuel (w ∷ words) b ≡ ok tt b') × Idle [] b'
  unfolding send_tlp
  send_tlp-ready zero w words b empty enough = absurd (omega arith)
  send_tlp-ready (suc fuel) w words b empty enough =
      let (c, runs, idle) =
        drained fuel w words (record b { tlp_out_list = (w ∷ words) ∷ [] }) refl (omega arith) in
      (
        c,
        ap
              (λ q. elim q [
                | [] ↦ drain (ticks step) (suc fuel) (record b { tlp_out_list = (w ∷ words) ∷ [] })
                | cur ∷ queued ↦
                    ok tt (record b { tlp_out_list = (cur ∷ queued) ++ ((w ∷ words) ∷ []) })
              ])
              empty
            ∙ runs,
        idle,
      )
