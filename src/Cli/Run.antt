-- ===== src/Cli/Run.antt =====
-- src/bin/ghaf-device.rs: the client's run: the request is made, and its answer printed.
use ghaf_device_manager.Base.{
  ℕ, String, ◌<>◌, Bool, true, false, Option, none, some, List, [], ◌∷◌, if◌then◌else◌, any, join,
  code, is_whitespace, is_empty_text, ◌||◌,
}
use ghaf_device_manager.Base.Outcome.{Error, said, context, Result}
use ghaf_device_manager.Json.{Value}
use ghaf_device_manager.Protocol
use ghaf_device_manager.Protocol.{Response, ResponsePayload, try_into}
use ghaf_device_manager.Client.{Transport}
use ghaf_device_manager.Cli.Commands.{
  OutputKind, Command, Cli, Ended, ok, failed, panicked, ◌>>=◌, of_result, Plan, plan, transport,
}
use ghaf_device_manager.Cli.Print.{Serde, print_usb, print_pci, println}
use ghaf_device_manager.Cli.Retry.{Calls, request_with_retry}
pub mod Words
pub mod Plans
pub mod Ends

unfoldable pub has_whitespace : String → Bool
has_whitespace String.[] = false
has_whitespace (String.◌∷◌ c s) = is_whitespace (code c) || has_whitespace s

unfoldable pub vmm_text : List String → Ended String
vmm_text arguments =
    if any has_whitespace arguments
    then failed (said "VMM arguments containing whitespace are not supported")
    else Ended.ok (join " " arguments)

abbrev is_vmm : Option OutputKind → Bool
is_vmm (some OutputKind.vmm) = true
is_vmm _ = false

-- How the program ends. `println!` and `print!` panic where standard output fails.
pub data Ending : Type 0 where
  ended : Ended (Unit {0}) → Ending
  stdout_failed : Ending

-- The text that is printed and how the program ends.
abbrev pub Exit : Type 0
Exit = String × Ending

-- The surroundings of the client: its calls, the text of a payload for a message, standard output, and
-- the listener's values with the error that ends it. Of a text that is printed in one or several
-- writes, `print` gives the part that is written if one of them fails.
pub record System (S : Type 0) : Type 0 where
  pub calls : Calls S
  pub serde : Serde
  pub debug_text : ResponsePayload → String
  pub local_cid : Result ℕ
  pub print : String → S → Option String × S
  pub listen : Transport → S → List Value × Error × S

module _ {S : Type 0} (system : System S) where
  -- The text to print for a payload.
  unfoldable pub output_text : Option OutputKind → ResponsePayload → Ended String
  output_text (some (OutputKind.usb short)) (ResponsePayload.usb_list devices) =
      Ended.ok (print_usb system.serde devices short)
  output_text (some (OutputKind.usb short)) other =
      failed (said ("unexpected response payload: " <> system.debug_text other))
  output_text (some (OutputKind.pci short)) (ResponsePayload.pci_list devices) =
      Ended.ok (print_pci system.serde devices short)
  output_text (some (OutputKind.pci short)) other =
      failed (said ("unexpected response payload: " <> system.debug_text other))
  output_text (some OutputKind.vmm) (ResponsePayload.vmm_args arguments) = vmm_text arguments
  output_text (some OutputKind.vmm) other = failed (said "unexpected response payload")
  output_text none payload = Ended.ok ""

  -- The answer to the request of a plan: `none` where the repeated one runs out of fuel.
  unfoldable pub answer : ℕ → Transport → Plan → S → Option (Result Response × S)
  answer fuel transport (message, deadline, output) s =
      let repeated = request_with_retry system.calls transport message deadline fuel s in
      let single = some (system.calls.request transport message deadline s) in
      if is_vmm output then repeated else single

  -- A text is printed, and then the program ends so.
  abbrev pub printed : String → Ending → S → Exit × S
  printed text e s =
      if is_empty_text text
      then (("", e), s)
      else let (part, s') = system.print text s in
        elim part [ none ↦ ((text, e), s') | some written ↦ ((written, stdout_failed), s') ]

  abbrev pub exit_with : Ended String → S → Exit × S
  exit_with (Ended.ok text) s = printed text (ended (Ended.ok tt)) s
  exit_with (failed e) s = (("", ended (failed e)), s)
  exit_with panicked s = (("", ended panicked), s)

  abbrev pub printed_lines : List Value → String
  printed_lines [] = ""
  printed_lines (v ∷ vs) = println (system.serde.to_string v) (printed_lines vs)

  -- What is printed for the answer, and how the program ends.
  unfoldable pub finish : Option OutputKind → Result Response → Ended String
  finish output r = of_result r >>= λ response. of_result (try_into response) >>= output_text output

  -- The exit after the answer to a request.
  abbrev pub exit_of : Option OutputKind → Option (Result Response × S) → Option (Exit × S)
  exit_of output none = none
  exit_of output (some (r, s)) = some (exit_with (finish output r) s)

  abbrev pub run_plan : ℕ → Transport → Ended Plan → S → Option (Exit × S)
  run_plan fuel transport (Ended.ok (message, deadline, output)) s =
      exit_of output (answer fuel transport (message, deadline, output) s)
  run_plan fuel transport (failed e) s = some (("", ended (failed e)), s)
  run_plan fuel transport panicked s = some (("", ended panicked), s)

  abbrev pub run_command : ℕ → Command → Transport → S → Option (Exit × S)
  run_command fuel Command.listen transport s =
      let (values, e, s') = system.listen transport s in
      some (
        printed (printed_lines values) (ended (failed (context "notification listener failed" e)))
          s')
  run_command fuel command transport s = run_plan fuel transport (plan command) s

  abbrev pub run_over : ℕ → Command → Ended Transport → S → Option (Exit × S)
  run_over fuel command (Ended.ok t) s = run_command fuel command t s
  run_over fuel command (failed e) s = some (("", ended (failed e)), s)
  run_over fuel command panicked s = some (("", ended panicked), s)

  unfoldable pub run : ℕ → Cli → S → Option (Exit × S)
  run fuel cli s = run_over fuel cli.command (transport system.local_cid cli) s
