-- ===== src/GraphicsRuntime/Submit/Ends.antt =====
-- Every way in which `submit` ends, a driver panic included.
use sher_graphics.Base.{ℕ, ◌≡◌, refl, String, ◌<>◌, inl, inr, true, arith}
use sher_graphics.Map.{insert}
use sher_graphics.Result.{ok, err, Error, Result}
use sher_graphics.Kernel.{ObjectId, Platform}
use sher_graphics.GraphicsApi.{QueueHandle, CommandStream}
use sher_graphics.GpuAbstraction.{
  GpuDriver, Outcome, returned, panicked, PanicPayload, str, string, opaque,
}
use sher_graphics.GraphicsRuntime.State.{GraphicsRuntime, log}
use sher_graphics.GraphicsRuntime.Stream.{translate_ops}
use sher_graphics.GraphicsRuntime.Submit.{submit, contain, panic_message, panic_error}
use sher_graphics.GraphicsRuntime.Submit.Ready.{IsReady, Refuses, submit_ready, submit_split}

-- What a panic says: its text, if it has one.
pub data Says : PanicPayload → String → Type 0 where
  of_str : (s : String) → Says (str s) s
  of_string : (s : String) → Says (string s) s
  of_opaque : Says opaque "driver panicked with a non-string payload"

pub panic_message-Says : (p : PanicPayload) → Says p (panic_message p)
unfolding panic_message
panic_message-Says (str s) = of_str s
panic_message-Says (string s) = of_string s
panic_message-Says opaque = of_opaque

module _ {K : Platform} {D : GpuDriver} (queue : QueueHandle) (stream : CommandStream)
    (timeline : ObjectId) (value : ℕ) where
  -- A check has failed; or all have passed, and the driver has taken the stream, has declined it, or
  -- has panicked. `d` is the driver as it leaves the call.
  pub data Ends (rt : GraphicsRuntime K D) (r : Result (Unit {0}) × GraphicsRuntime K D)
      : Type 0 where
    refused :
        ((gpu : ObjectId) → ¬ IsReady queue stream timeline value gpu rt)
        → Refuses queue stream timeline value rt r
        → Ends rt r
    taken :
        (gpu : ObjectId) (d : D.Driver)
        → IsReady queue stream timeline value gpu rt
        → D.submit gpu queue.class (translate_ops stream.ops) rt.driver ≡ (returned (ok tt), d)
        → r ≡ (
          ok tt,
          record rt {
            driver = d;
            timelines = insert timeline value rt.timelines;
            audit = K.log rt.audit stream.device "submit" true;
          },
        )
        → Ends rt r
    declined :
        (gpu : ObjectId) (d : D.Driver) (e : Error)
        → IsReady queue stream timeline value gpu rt
        → D.submit gpu queue.class (translate_ops stream.ops) rt.driver ≡ (returned (err e), d)
        → r ≡ (err e, record rt { driver = d; audit = K.log rt.audit stream.device "submit" true })
        → Ends rt r
    contained :
        (gpu : ObjectId) (d : D.Driver) (p : PanicPayload) (text : String)
        → IsReady queue stream timeline value gpu rt
        → D.submit gpu queue.class (translate_ops stream.ops) rt.driver ≡ (panicked p, d)
        → Says p text
        → r ≡ (
          err (Error.device ("driver panicked during submit: " <> text)),
          record rt {
            driver = D.mark_faulted gpu text d;
            audit = K.log rt.audit stream.device "submit" true;
          },
        )
        → Ends rt r

  ready_ends :
      (gpu : ObjectId) (rt : GraphicsRuntime K D) (o : Outcome (Unit {0})) (d : D.Driver)
      → IsReady queue stream timeline value gpu rt
      → D.submit gpu queue.class (translate_ops stream.ops) rt.driver ≡ (o, d)
      → Ends rt (submit queue stream timeline value rt)
  unfolding contain log panic_error
  ready_ends gpu rt (returned (ok u)) d ready h =
      taken gpu d ready h (ground (arith, submit_ready queue stream timeline value gpu rt ready))
  ready_ends gpu rt (returned (err e)) d ready h =
      declined gpu d e ready h
        (ground (arith, submit_ready queue stream timeline value gpu rt ready))
  ready_ends gpu rt (panicked p) d ready h =
      contained gpu d p (panic_message p) ready h (panic_message-Says p)
        (ground (arith, submit_ready queue stream timeline value gpu rt ready))

  -- Whatever the state and the driver, `submit` ends in one of four ways. If a check fails it returns
  -- an error, calls no driver and writes at most an audit entry. Otherwise it logs the grant, and: if
  -- the driver returns `Ok`, only the timeline moves, to the signal value; if it returns an error,
  -- that is the result and no table changes; and if it panics, the result is an error with the panic's
  -- text, the driver is told of a fault with that text, and no table changes.
  pub submit_ends : (rt : GraphicsRuntime K D) → Ends rt (submit queue stream timeline value rt)
  submit_ends rt = elim (submit_split queue stream timeline value rt) [
    | inr (unready, r) ↦ refused unready r
    | inl (gpu, ready) ↦
        let (o, d) = D.submit gpu queue.class (translate_ops stream.ops) rt.driver in
        ready_ends gpu rt o d ready refl
  ]
