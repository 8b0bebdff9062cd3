-- ===== src/Dlp/Endpoint/Transmit/Burst.antt =====
-- dlp.rs: what `poll_tx_burst` sends.
use smolgnet.Base.{ℕ, suc, ◌-◌, ◌≡◌, refl, ap, sym, subst, true, false, not, ◌&&◌}
use smolgnet.Base.{List, [], ◌∷◌, ◌++◌, length, is_empty, inl, inr, ◌⊎◌, Bool-cases, if_false}
use smolgnet.Base.Results.{Result, ok, err, no_credit}
use smolgnet.Dlp.{Flit}
use smolgnet.Dlp.Endpoint.{DlpEndpoint}
use smolgnet.Dlp.Endpoint.Transmit.{poll_tx_burst, nothing_sent, report, Taken}
use smolgnet.Dlp.Endpoint.Transmit.Stream.{IsSent, emit_queue_flits-IsSent}

-- A burst: flits of the control queue, then flits of the data queue into the rest of the slice, and
-- nothing else of the endpoint changes. It reports `no_credit` if it sent nothing while a frame waits,
-- and else what it sent.
pub record IsBurst (room : ℕ) (e : DlpEndpoint) (r : DlpEndpoint × Result (List Flit))
    : Type 0 where
  pub control_out : List Flit
  pub data_out : List Flit
  pub control_sent :
      IsSent room e.control_tx_queue e.control_tx_credit
        (r.0.control_tx_queue, r.0.control_tx_credit, control_out)
  pub data_sent :
      IsSent
        (room - length control_out)
        e.data_tx_queue
        e.data_tx_credit
        (r.0.data_tx_queue, r.0.data_tx_credit, data_out)
  pub rest : r.0 ≡ record e {
    control_tx_queue = r.0.control_tx_queue;
    control_tx_credit = r.0.control_tx_credit;
    data_tx_queue = r.0.data_tx_queue;
    data_tx_credit = r.0.data_tx_credit;
  }
  pub reported :
      ((r.1 ≡ ok (control_out ++ data_out))
        × ((is_empty (control_out ++ data_out)
              && not (is_empty r.0.control_tx_queue && is_empty r.0.data_tx_queue))
            ≡ false))
      ⊎ ((r.1 ≡ err no_credit)
          × (control_out ++ data_out ≡ [])
          × ((is_empty r.0.control_tx_queue && is_empty r.0.data_tx_queue) ≡ false))

report-eq :
    (e : DlpEndpoint) (out : List Flit)
    → ((report e out ≡ (e, ok out))
        × ((is_empty out && not (is_empty e.control_tx_queue && is_empty e.data_tx_queue)) ≡ false))
      ⊎ ((report e out ≡ (e, err no_credit))
          × (out ≡ [])
          × ((is_empty e.control_tx_queue && is_empty e.data_tx_queue) ≡ false))
unfolding report nothing_sent
report-eq e (flit ∷ rest) = inl (refl, refl)
report-eq e [] = elim (Bool-cases (is_empty e.control_tx_queue && is_empty e.data_tx_queue)) [
  | inl nothing ↦ inl (rw nothing refl, ap not nothing)
  | inr waiting ↦ inr (rw waiting refl, refl, waiting)
]

IsBurst-report :
    (room : ℕ) (e : DlpEndpoint) (control data' : Taken (List Flit))
    → IsSent room e.control_tx_queue e.control_tx_credit control
    → IsSent (room - length control.2) e.data_tx_queue e.data_tx_credit data'
    → IsBurst room e (
        report
          (record e {
            control_tx_queue = control.0;
            control_tx_credit = control.1;
            data_tx_queue = data'.0;
            data_tx_credit = data'.1;
          })
          (control.2 ++ data'.2))
IsBurst-report room e control data' c d = elim (report-eq after (control.2 ++ data'.2)) [
  | inl (h, spoke) ↦ subst (IsBurst room e) (sym h) (record {
    control_out = control.2;
    data_out = data'.2;
    control_sent = c;
    data_sent = d;
    rest = refl;
    reported = inl (refl, spoke);
  })
  | inr (h, nothing, waiting) ↦ subst (IsBurst room e) (sym h) (record {
    control_out = control.2;
    data_out = data'.2;
    control_sent = c;
    data_sent = d;
    rest = refl;
    reported = inr (refl, nothing, waiting);
  })
]
  where
    after : DlpEndpoint
    after = record e {
      control_tx_queue = control.0;
      control_tx_credit = control.1;
      data_tx_queue = data'.0;
      data_tx_credit = data'.1;
    }

-- A burst into a non-empty slice on a link that is up sends control flits first, then data flits into
-- the rest of the slice; each queue gives its flits in order, one credit each, as many as slice and
-- credit allow; nothing else changes; the answer is `no_credit` exactly when nothing was sent while a
-- frame waits, and else the flits.
pub poll_tx_burst-IsBurst :
    (e : DlpEndpoint) (room : ℕ)
    → e.link_up ≡ true
    → IsBurst (suc room) e (poll_tx_burst e (suc room))
unfolding poll_tx_burst
poll_tx_burst-IsBurst e room up = if_false (IsBurst (suc room) e) (not e.link_up) _ _ (ap not up) (
    IsBurst-report (suc room) e _ _
      (emit_queue_flits-IsSent (suc room) e.control_tx_queue e.control_tx_credit)
      (emit_queue_flits-IsSent _ e.data_tx_queue e.data_tx_credit))
