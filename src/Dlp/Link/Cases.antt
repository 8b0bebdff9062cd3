-- ===== src/Dlp/Link/Cases.antt =====
-- dlp_v01.rs: a method of a link is refused, and changes nothing, or does its work.
use smolgnet.Base.{ℕ, true}
use smolgnet.Base.Results.{Result, ok, err, ◌then_ok◌, guard-then_ok, link_down, invalid_state}
use smolgnet.Dlp.Endpoint.{DlpEndpoint, set_link_up, grant_control_tx_credit}
use smolgnet.Dlp.Link.{
  DlpLink, recovering, up, is_up, is_down, is_recovering, require_up, with_endpoint,
}
use smolgnet.Dlp.Link.{begin_recovery, complete_recovery, grant_peer_control_credit}

pub with_endpoint-cases {ℓ} :
    {A : Type 0} (P : DlpLink × Result A → Type ℓ) (l : DlpLink)
    (f : DlpEndpoint → DlpEndpoint × Result A)
    → P (l, err link_down)
    → P (with_endpoint l (f l.endpoint))
    → P ((l, require_up l) then_ok λ k u. with_endpoint k (f k.endpoint))
unfolding require_up
with_endpoint-cases P l f refused called =
    guard-then_ok P l (is_up l.state) link_down (λ k u. with_endpoint k (f k.endpoint)) refused
      called

pub begin_recovery-cases {ℓ} :
    (P : DlpLink × Result (Unit {0}) → Type ℓ) (l : DlpLink)
    → P (l, err invalid_state)
    → P (record l { endpoint = set_link_up l.endpoint true; state = recovering }, ok tt)
    → P (begin_recovery l)
unfolding begin_recovery
begin_recovery-cases P l refused run =
    guard-then_ok P l (is_down l.state) invalid_state
      (λ k u. (record k { endpoint = set_link_up k.endpoint true; state = recovering }, ok tt))
      refused run

pub complete_recovery-cases {ℓ} :
    (P : DlpLink × Result (Unit {0}) → Type ℓ) (l : DlpLink)
    → P (l, err invalid_state)
    → P (record l { state = up }, ok tt)
    → P (complete_recovery l)
unfolding complete_recovery
complete_recovery-cases P l refused run =
    guard-then_ok P l (is_recovering l.state) invalid_state
      (λ k u. (record k { state = up }, ok tt)) refused run

pub grant_peer_control_credit-cases {ℓ} :
    (P : DlpLink × Result (Unit {0}) → Type ℓ) (l : DlpLink) (count : ℕ)
    → P (l, err link_down)
    → P (record l { endpoint = grant_control_tx_credit l.endpoint count }, ok tt)
    → P (grant_peer_control_credit l count)
unfolding grant_peer_control_credit require_up
grant_peer_control_credit-cases P l count refused run =
    guard-then_ok P l (is_up l.state) link_down
      (λ k u. (record k { endpoint = grant_control_tx_credit k.endpoint count }, ok tt)) refused run
