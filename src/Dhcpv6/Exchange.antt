-- ===== src/Dhcpv6/Exchange.antt =====
-- `acquirePrefix`, `renewPrefix` and `rebindPrefix` of dhcpv6pd_receiver.go. The network is a record
-- of what each call that leaves the process returns; the server sees the message it is sent.
use dynamic_prefix_operator.Prelude.{
  ℕ, String, Option, none, some, List, [], ◌∷◌, Result, ok, err, ◌>>=◌, ◌>>◌, wrap_err,
}
use dynamic_prefix_operator.Prelude.Int.{ℤ}
use dynamic_prefix_operator.Types.{Error, message, wrapped}
use dynamic_prefix_operator.Dhcpv6.Message.{
  IaOption, ia_pd, generic, Message, MessageType, solicit, request, renew, rebind, Request, hint,
  offered, held, Lease, PdReceiver, status_error, iaid_for_interface,
}
use dynamic_prefix_operator.Dhcpv6.Reply.{fail_if, or_fail, process_iapd_reply}

-- One use of the network: the interface's index, the client, each new message's random part, the
-- answer to each message, and the clock when the reply is processed.
pub record Network : Type 0 where
  pub interface_index : Result Error ℤ
  pub dial : Result Error (Unit {0})
  pub new_message : MessageType → Result Error (Unit {0})
  pub send_and_read : Request → Result Error Message
  pub now : ℤ

-- `openClient`: the interface first, then the client.
unfoldable pub open_client : Network → Result Error ℤ
open_client w = do
  index ← wrap_err (wrapped "failed to get interface") w.interface_index
  wrap_err (wrapped "failed to create DHCPv6 client") w.dial
  ok index

-- `newPDMessage`, and the send that uses the message.
unfoldable pub ask : Network → String → Request → Result Error Message
ask w what m = do
  wrap_err (wrapped "failed to create message") (w.new_message m.type)
  wrap_err (wrapped what) (w.send_and_read m)

abbrev first_option : List IaOption → Option IaOption
first_option [] = none
first_option (o ∷ os) = some o

-- A status inside the offer refuses; a generic option carries none.
offer_refusal : IaOption → Option Error
offer_refusal generic = none
offer_refusal (ia_pd pd) = status_error pd.status

unfoldable pub solicit_message : PdReceiver → ℕ → Request
solicit_message r iaid = record {
  type = solicit;
  to_server = none;
  asked_for = hint iaid r.requested_prefix_length;
}

unfoldable pub request_message : ℕ → IaOption → Request
request_message server offer = record {
  type = request;
  to_server = some server;
  asked_for = offered offer;
}

-- What the exchange ends in: the REPLY, our IAID and the server it is from.
pub record Answer : Type 0 where
  pub reply : Message
  pub iaid : ℕ
  pub server : ℕ

unfoldable pub acquire_answer : Network → PdReceiver → Result Error Answer
unfolding open_client ask offer_refusal
acquire_answer w r = do
  index ← open_client w
  iaid ← iaid_for_interface index
  advertise ← ask w "failed to receive ADVERTISE" (solicit_message r iaid)
  offer ← or_fail (first_option advertise.ia_options) (message "ADVERTISE did not contain IA_PD")
  wrap_err (wrapped "ADVERTISE offered no delegation") (fail_if (offer_refusal offer))
  server ← or_fail advertise.server_id (message "ADVERTISE did not contain Server ID")
  reply ← ask w "failed to receive REPLY" (request_message server offer)
  ok (record { reply = reply; iaid = iaid; server = server })

unfoldable pub renew_message : Lease → Request
renew_message l = record {
  type = renew;
  to_server = some l.server_id;
  asked_for = held l.iaid l.prefix l.preferred_lifetime l.valid_lifetime;
}

unfoldable pub rebind_message : Lease → Request
rebind_message l = record {
  type = rebind;
  to_server = none;
  asked_for = held l.iaid l.prefix l.preferred_lifetime l.valid_lifetime;
}

unfoldable pub renew_answer : Network → Option Lease → Result Error Answer
unfolding open_client ask
renew_answer w none = err (message "no lease to renew")
renew_answer w (some l) = do
  open_client w
  reply ← ask w "failed to receive REPLY for RENEW" (renew_message l)
  ok (record { reply = reply; iaid = l.iaid; server = l.server_id })

unfoldable pub rebind_answer : Network → Option Lease → Result Error Answer
unfolding open_client ask
rebind_answer w none = err (message "no lease to rebind")
rebind_answer w (some l) = do
  open_client w
  reply ← ask w "failed to receive REPLY for REBIND" (rebind_message l)
  server ← or_fail reply.server_id (message "REPLY did not contain Server ID")
  ok (record { reply = reply; iaid = l.iaid; server = server })

unfoldable pub conclude : ℤ → Result Error Answer → PdReceiver → PdReceiver × Option Error
conclude now (err e) r = (r, some e)
conclude now (ok a) r = process_iapd_reply a.reply a.iaid a.server now r

unfoldable pub acquire_prefix : Network → PdReceiver → PdReceiver × Option Error
acquire_prefix w r = conclude w.now (acquire_answer w r) r

unfoldable pub renew_prefix : Network → PdReceiver → PdReceiver × Option Error
renew_prefix w r = conclude w.now (renew_answer w r.lease) r

unfoldable pub rebind_prefix : Network → PdReceiver → PdReceiver × Option Error
rebind_prefix w r = conclude w.now (rebind_answer w r.lease) r
