-- ===== src/Tests/Client.antt =====
-- The theorems on the command-line client, at concrete inputs.
use ghaf_device_manager.Base.{
  ℕ, ◌+◌, String, ◌≡◌, refl, false, not, none, some, [], ◌∷◌, filter, is_empty_text,
  split_whitespace, arith, is_whitespace, ◌⊎◌,
}
use ghaf_device_manager.Base.Outcome.{err, said}
use ghaf_device_manager.Json.{Value, end, field, object, string}
use ghaf_device_manager.Protocol.{Action, ResponsePayload}
use ghaf_device_manager.Manager.Select.{UsbListDevice, PciListDevice}
use ghaf_device_manager.Client.{Transport}
use ghaf_device_manager.Cli.Escape.{escape_field}
use ghaf_device_manager.Cli.Escape.Safe.{is_safe}
use ghaf_device_manager.Cli.Escape.Decode.{escape_control-injective}
use ghaf_device_manager.Cli.Escape.Field.{IsWhole, IsCut, escape_field-IsBounded}
use ghaf_device_manager.Cli.Print.{Serde, print_usb}
use ghaf_device_manager.Cli.Print.Lines.{IsLines, safe_names, print_usb-IsLines}
use ghaf_device_manager.Cli.Selectors.{UsbSelectorArgs, accepts_usb}
use ghaf_device_manager.Cli.Selectors.Exact.{IsUsbSelector, to_usb_selector-IsExact}
use ghaf_device_manager.Cli.Retry.{Calls, request_with_retry}
use ghaf_device_manager.Cli.Retry.Deadline.{IsClock, IsSettled, request_with_retry-IsSettled}
use ghaf_device_manager.Cli.Commands.{Command, VmmAction, Seconds, Cli}
use ghaf_device_manager.Cli.Run.{System, vmm_text, has_whitespace}
use ghaf_device_manager.Cli.Run.Words.{vmm_text-split_whitespace}
use ghaf_device_manager.Tests.{mouse}

-- An escape sequence that clears the screen, in a product's name.
abbrev hostile : String
hostile = "\u{1b}[2J mouse"

escape_control-injective_example : hostile ≡ hostile
escape_control-injective_example = escape_control-injective hostile hostile refl

escape_field-IsBounded_example :
    IsWhole 0 hostile (escape_field hostile) ⊎ IsCut 0 hostile (escape_field hostile)
escape_field-IsBounded_example = escape_field-IsBounded hostile

-- A surrounding whose state is its time: the daemon never answers.
abbrev deaf : Calls ℕ
deaf = record {
  now = λ s. (s, s);
  request = λ transport message left s. (err (said "refused"), s);
  sleep = λ time s. s + time;
}

abbrev time_of : ℕ → ℕ
time_of s = s

deaf-IsClock : IsClock deaf time_of
deaf-IsClock = record {
  not_before = λ s. omega (arith);
  not_after = λ s. omega (arith);
  forward = λ t a left s. omega (arith);
  slept = λ time s. omega (arith);
}

abbrev socket : Transport
socket = Transport.unix "/run/api.sock"

abbrev ask_args : Action
ask_args = Action.vmm_args "net-vm" none none false

request_with_retry-IsSettled_example :
    IsSettled deaf time_of socket ask_args 1500000000 7
      (request_with_retry deaf socket ask_args 1500000000 3 7)
request_with_retry-IsSettled_example =
    request_with_retry-IsSettled deaf time_of socket ask_args 1500000000 deaf-IsClock 3 7
      (omega (arith))

abbrev serde : Serde
serde = record {
  usb_value = λ (d : UsbListDevice). object (field "sys_name" (string d.device.sys_name) end);
  pci_value = λ (d : PciListDevice). object (field "address" (string d.device.address) end);
  to_string = λ (v : Value). "null";
}

abbrev listed : UsbListDevice
listed = record { device = mouse; allowed = []; vm = none; disconnected = false }

print_usb-IsLines_example : IsLines (print_usb serde (listed ∷ []) false)
unfolding safe_names is_safe
print_usb-IsLines_example = print_usb-IsLines serde (λ d. refl) (listed ∷ []) false

abbrev port_args : UsbSelectorArgs
port_args = record {
  device_node = none;
  bus = some 1;
  port = some 2;
  vid = none;
  pid = none;
  tag = none;
}

to_usb_selector-IsExact_example : IsUsbSelector port_args
unfolding accepts_usb
to_usb_selector-IsExact_example = to_usb_selector-IsExact port_args refl

vmm_text-split_whitespace_example :
    split_whitespace "--vfio /sys/a"
    ≡ filter (λ a. not (is_empty_text a)) ("--vfio" ∷ "/sys/a" ∷ [])
unfolding vmm_text has_whitespace is_whitespace
vmm_text-split_whitespace_example =
    vmm_text-split_whitespace ("--vfio" ∷ "/sys/a" ∷ []) "--vfio /sys/a" refl

abbrev deaf_system : System ℕ
deaf_system = record {
  calls = deaf;
  serde = serde;
  debug_text = λ (p : ResponsePayload). "payload";
  local_cid = err (said "no device");
  print = λ text s. (none, s);
  listen = λ t s. ([], said "closed", s);
}

abbrev cli : Cli
cli = record {
  debug = false;
  transport = none;
  path = "/run/api.sock";
  host = "127.0.0.1";
  net_port = 2000;
  cid = 2;
  command = Command.vmm (VmmAction.args "net-vm" none none (Seconds.nanoseconds 1500000000) false);
}
