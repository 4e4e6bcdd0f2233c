-- ===== src/Evloop/Rounds/Tests.antt =====
-- A timer whose task wakes, and whose response is handled in a round.
use rsvim.Prelude.{◌≡◌, refl, ◌||◌, inl, false, none, [], ok, arith}
use rsvim.Canvas.Diff
use rsvim.Canvas.Tests.Device.{colours}
use rsvim.Tree.Tests.{corners}
use rsvim.Tree.Widgets
use rsvim.Buf.Sample.{texts, files}
use rsvim.State.Fsm
use rsvim.State.Tests.{types, keys}
use rsvim.Js.Timers.{
  new, exec, set_timeout, next_future_id, process_js_runtime_request, send_response,
}
use rsvim.Js.Timers.Tests.{scripts, req, asleep, asleep-Reach}
use rsvim.Evloop.Rounds.{EventLoop, Branch, js_response, dispatch}
use rsvim.Evloop.Rounds.Returns.{Runs, here, next_woken, cancels, Runs-dispatch_returns}

abbrev start : EventLoop corners colours scripts
start = record {
  fsm = record {
    state = Fsm.new;
    tree = Widgets.new tt 1 (record { width = 2; height = 3 });
    cancelled = false;
  };
  canvas = Diff.new (record { width = 2; height = 3 });
  writer = [];
  js = asleep;
}

abbrev awake : EventLoop corners colours scripts
awake = record start { js = send_response req (record asleep { sleeping = [] }) }

abbrev answered : Branch types
answered = js_response

woken : Runs {x = texts} {f = files} keys (λ id. none) start awake
unfolding new exec set_timeout next_future_id process_js_runtime_request send_response
woken = next_woken [] [] req here refl

Runs-dispatch_returns_example :
    (l' : EventLoop corners colours scripts) × (dispatch keys answered awake ≡ ok l')
    × (l'.fsm.cancelled ≡ (awake.fsm.cancelled || cancels keys answered awake))
unfolding Widgets.new new exec set_timeout next_future_id process_js_runtime_request send_response
Runs-dispatch_returns_example =
    Runs-dispatch_returns {x = texts} {f = files} keys (λ id. none) 0 start answered asleep-Reach
      (inl refl) woken (omega arith)
