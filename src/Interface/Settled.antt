-- ===== src/Interface/Settled.antt =====
-- Bytes that a request has sent to the mouse, and that later requests leave in the log.
use apple_ps2smart_touch_pad.Common.{
  ℕ, false, List, [], ◌∷◌, ◌++◌, ◌≡◌, refl, sym, subst, ap, ◌∙◌, arith, length, if_holds,
}
use mathlib.Core.List.{append-nil, append_assoc}
use apple_ps2smart_touch_pad.Controller.State.{PortWrite, to_command, to_data}
use apple_ps2smart_touch_pad.Controller.Request.{Request, Service}
use apple_ps2smart_touch_pad.Controller.Request.Commands.{mouse_route}
use apple_ps2smart_touch_pad.Controller.Request.Wire.{mouse_commands, wire}
use apple_ps2smart_touch_pad.Interface.{
  send_sliced_ps2_cmd, send_ps2_cmd, get_mouse_information, send_synaptics_cmd, sliced_bytes, done,
  send, read_port, dp_get_mouse_information,
}
use apple_ps2smart_touch_pad.Interface.Device.{
  Host, Params, IoReturn, failed, new_request, submit, free_request,
}
use apple_ps2smart_touch_pad.Interface.Sent.{Grows, Grows-refl}
use apple_ps2smart_touch_pad.Interface.Slices.{IsIdle, submit-mouse_commands}
use apple_ps2smart_touch_pad.Interface.Submitted.{port, submit-IsIdle, submit_sends}

-- The bytes were sent to the mouse at some time, one behind the other and each behind the prefix that
-- routes it there; the controller is online and no request waits.
pub record HasSent (bs : List ℕ) (h : Host) : Type 0 where
  pub idle : IsIdle h
  pub log :
      (before : List PortWrite) × (after : List PortWrite) × ((port h).outs
        ≡ (before ++ wire (mouse_route (port h)) bs) ++ after)

-- They are the last that was written to the ports.
pub record HasJustSent (bs : List ℕ) (h : Host) : Type 0 where
  pub idle : IsIdle h
  pub log : (before : List PortWrite) × ((port h).outs ≡ before ++ wire (mouse_route (port h)) bs)

wire-append : (route : ℕ) (bs cs : List ℕ) → wire route (bs ++ cs) ≡ wire route bs ++ wire route cs
wire-append route [] cs = refl
wire-append route (b ∷ bs) cs =
    ap (λ ws. to_command route ∷ to_data b ∷ ws) (wire-append route bs cs)

IsIdle-service : (h h' : Host) → h'.service ≡ h.service → IsIdle h → IsIdle h'
IsIdle-service h h' e v = record {
  online = ap (λ (s : Service). s.ctl.hardware_offline) e ∙ v.online;
  no_queue = ap (λ (s : Service). s.request_queue) e ∙ v.no_queue;
}

HasSent-Grows :
    (bs : List ℕ) (h h' : Host)
    → IsIdle h'
    → Grows (port h) (port h')
    → HasSent bs h
    → HasSent bs h'
HasSent-Grows bs h h' v g t =
    let (before, after, e) = t.log in
    record {
      idle = v;
      log = (
        before,
        after ++ g.sent.0,
        ground (
          arith,
          g.sent.1,
          g.route,
          e,
          append_assoc (before ++ wire (mouse_route (port h)) bs) after g.sent.0,
        ),
      );
    }

HasSent-service :
    (bs : List ℕ) (h h' : Host) → h'.service ≡ h.service → HasSent bs h → HasSent bs h'
HasSent-service bs h h' e t =
    HasSent-Grows bs h h' (IsIdle-service h h' e t.idle)
      (subst (λ (s : Service). Grows (port h) s.ctl) (sym e) (Grows-refl (port h))) t

free_request-service : (r : Request) (h : Host) → (free_request r h).1.service ≡ h.service
unfolding free_request
free_request-service r h = ground arith

-- What was sent stays sent through a request that is submitted and freed.
pub HasSent-submit :
    (bs : List ℕ) (r : Request) (h : Host) → HasSent bs h → HasSent bs (submit r h).1
HasSent-submit bs r h t =
    let s = submit-IsIdle r h t.idle in HasSent-Grows bs h (submit r h).1 s.0 s.1 t

pub HasSent-free :
    (bs : List ℕ) (r : Request) (h : Host) → HasSent bs h → HasSent bs (free_request r h).1
HasSent-free bs r h t = HasSent-service bs h (free_request r h).1 (free_request-service r h) t

pub HasSent-send_ps2_cmd :
    (bs : List ℕ) (cmd : ℕ) (h : Host) → HasSent bs h → HasSent bs (send_ps2_cmd cmd h).1
unfolding send_ps2_cmd
HasSent-send_ps2_cmd bs cmd h t =
    let r = new_request (mouse_commands (cmd ∷ [])) in
    HasSent-free bs (submit r h).0 (submit r h).1 (HasSent-submit bs r h t)

pub HasSent-send_sliced_ps2_cmd :
    (bs : List ℕ) (cmd : ℕ) (h : Host) → HasSent bs h → HasSent bs (send_sliced_ps2_cmd cmd h).1
unfolding send_sliced_ps2_cmd sliced_bytes
HasSent-send_sliced_ps2_cmd bs cmd h t =
    let r = new_request (mouse_commands (sliced_bytes cmd)) in
    let (r1, h1) = submit r h in
    let (r2, h2) = free_request r1 h1 in
    let t1 = HasSent-submit bs r h t in
    let t2 = HasSent-free bs r1 h1 t1 in
    let t3 = HasSent-free bs r2 h2 t2 in
    if_holds (λ (x : IoReturn × Host). HasSent bs x.1) (done 9 r1) _ _ t2 t3

pub HasSent-send_synaptics_cmd :
    (bs : List ℕ) (cmd : ℕ) (p : Params) (h : Host)
    → HasSent bs h
    → HasSent bs (send_synaptics_cmd cmd p h).2
unfolding send_synaptics_cmd get_mouse_information
HasSent-send_synaptics_cmd bs cmd p h t =
    let t1 = HasSent-send_sliced_ps2_cmd bs cmd h t in
    let h1 = (send_sliced_ps2_cmd cmd h).1 in
    let r = new_request (send dp_get_mouse_information ∷ read_port ∷ read_port ∷ read_port ∷ []) in
    let t2 = HasSent-free bs (submit r h1).0 (submit r h1).1 (HasSent-submit bs r h1 t1) in
    ground (arith, t1, t2)

-- A request that goes well puts its bytes behind those that were just sent.
then_sends :
    (cs : List ℕ) (b : ℕ) (bs : List ℕ) (h : Host)
    → HasJustSent cs h
    → (submit (new_request (mouse_commands (b ∷ bs))) h).0.commands_count ≡ length (b ∷ bs)
    → HasJustSent (cs ++ (b ∷ bs)) (submit (new_request (mouse_commands (b ∷ bs))) h).1
then_sends cs b bs h t e =
    let r = new_request (mouse_commands (b ∷ bs)) in
    let s = submit-IsIdle r h t.idle in
    let (before, l) = t.log in
    let sent = submit-mouse_commands (b ∷ bs) h t.idle e in
    let route = mouse_route (port h) in
    record {
      idle = s.0;
      log = (
        before,
        ground (
          arith,
          sent,
          l,
          s.1.route,
          wire-append route cs (b ∷ bs),
          append_assoc before (wire route cs) (wire route (b ∷ bs)),
        ),
      );
    }

HasJustSent-service :
    (bs : List ℕ) (h h' : Host) → h'.service ≡ h.service → HasJustSent bs h → HasJustSent bs h'
HasJustSent-service bs h h' e t =
    let (before, l) = t.log in
    record {
      idle = IsIdle-service h h' e t.idle;
      log = (
        before,
        subst (λ (s : Service). s.ctl.outs ≡ before ++ wire (mouse_route s.ctl) bs) (sym e) l,
      );
    }

pub HasJustSent-HasSent : (bs : List ℕ) (h : Host) → HasJustSent bs h → HasSent bs h
HasJustSent-HasSent bs h t =
    let (before, l) = t.log in
    record {
      idle = t.idle;
      log = (before, [], l ∙ sym (append-nil (before ++ wire (mouse_route (port h)) bs)));
    }

-- A sliced command that does not fail has just sent its bytes.
pub send_sliced_ps2_cmd-HasJustSent :
    (cmd : ℕ) (h : Host)
    → failed (send_sliced_ps2_cmd cmd h).0 ≡ false
    → HasJustSent (sliced_bytes cmd) (send_sliced_ps2_cmd cmd h).1
unfolding send_sliced_ps2_cmd sliced_bytes
send_sliced_ps2_cmd-HasJustSent cmd h e =
    let x = submit (new_request (mouse_commands (sliced_bytes cmd))) h in
    let count : x.0.commands_count ≡ 9 = ground (arith, e) in
    let sent = submit_sends 8 (sliced_bytes cmd) h refl count in
    let t : HasJustSent (sliced_bytes cmd) x.1 = record { idle = sent.0; log = sent.1 } in
    HasJustSent-service (sliced_bytes cmd) x.1 (send_sliced_ps2_cmd cmd h).1
      (ground (arith, count, free_request-service x.0 x.1)) t

-- A command that does not fail has put its byte behind those that were just sent.
pub send_ps2_cmd-HasJustSent :
    (cs : List ℕ) (cmd : ℕ) (h : Host)
    → HasJustSent cs h
    → failed (send_ps2_cmd cmd h).0 ≡ false
    → HasJustSent (cs ++ (cmd ∷ [])) (send_ps2_cmd cmd h).1
unfolding send_ps2_cmd
send_ps2_cmd-HasJustSent cs cmd h t e =
    let x = submit (new_request (mouse_commands (cmd ∷ []))) h in
    let count : x.0.commands_count ≡ 1 = ground (arith, e) in
    HasJustSent-service (cs ++ (cmd ∷ [])) x.1 (free_request x.0 x.1).1
      (free_request-service x.0 x.1) (then_sends cs cmd [] h t count)
