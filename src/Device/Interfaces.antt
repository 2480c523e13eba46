-- ===== src/Device/Interfaces.antt =====
-- `scan_usb` of src/device.rs: the interfaces of a device as texts and modaliases, and its names.
use ghaf_device_manager.Base.{
  ℕ, ◌-◌, ◌^◌, String, Bool, true, false, not, ◌&&◌, ◌||◌, Option, none, some, List, [], ◌∷◌, ◌++◌,
  map, ◌==◌, ◌<>◌, if◌then◌else◌, is_empty, unwrap_or, any, contains, hexadecimal, to_uppercase,
  join,
}
use ghaf_device_manager.Json.{and_then}
use ghaf_device_manager.Device.{UsbInterface}

abbrev pub max_u32 : ℕ
max_u32 = 2 ^ 32 - 1

-- `udev::Hwdb::query_one`: a modalias and a property.
abbrev pub Hwdb : Type 0
Hwdb = String → String → Option String

abbrev same_field : Option ℕ → Option ℕ → Bool
same_field none none = true
same_field none (some n) = false
same_field (some m) none = false
same_field (some m) (some n) = m == n

abbrev same_interface : UsbInterface → UsbInterface → Bool
same_interface i j =
    same_field i.class j.class
    && (same_field i.subclass j.subclass && same_field i.protocol j.protocol)

-- The loop that drops repeated triples, but only of cached ones.
unfoldable pub distinct : Bool → List UsbInterface → List (ℕ × UsbInterface) → List UsbInterface
distinct cached met [] = met
distinct cached met ((n, i) ∷ rest) =
    distinct cached
      (if not cached || not (any (same_interface i) met) then met ++ (i ∷ []) else met) rest

pub record UsbDescriptorIdentity : Type 0 where
  pub vid : String
  pub pid : String
  pub bcd_device : ℕ
  pub device_class : ℕ
  pub device_subclass : ℕ
  pub device_protocol : ℕ

abbrev upper_hex : ℕ → ℕ → String
upper_hex width n = to_uppercase (hexadecimal width n)

unfoldable pub interface_modalias : UsbDescriptorIdentity → UsbInterface → ℕ → Option String
interface_modalias id i number = and_then i.class λ class. and_then i.subclass λ subclass.
    and_then i.protocol λ protocol. some (
      "usb:v"
      <> (to_uppercase id.vid
          <> ("p"
              <> (to_uppercase id.pid
                  <> ("d"
                      <> (upper_hex 4 id.bcd_device
                          <> ("dc"
                              <> (upper_hex 2 id.device_class
                                  <> ("dsc"
                                      <> (upper_hex 2 id.device_subclass
                                          <> ("dp"
                                              <> (upper_hex 2 id.device_protocol
                                                  <> ("ic"
                                                      <> (upper_hex 2 class
                                                          <> ("isc"
                                                            <> (upper_hex 2 subclass
                                                            <> ("ip"
                                                            <> (upper_hex 2 protocol
                                                            <> ("in"
                                                            <> upper_hex 2 number)))))))))))))))))))

-- The modaliases of the interfaces behind those of the directories, each once.
unfoldable pub add_modaliases :
    UsbDescriptorIdentity → List String → List (ℕ × UsbInterface) → List String
add_modaliases id met [] = met
add_modaliases id met ((n, i) ∷ rest) =
    add_modaliases id
      (elim (interface_modalias id i n) [
        | none ↦ met
        | some modalias ↦ if contains met modalias then met else met ++ (modalias ∷ [])
      ])
      rest

unfoldable pub hwdb_names :
    Option Hwdb → Option String → Option String → Option String × Option String
hwdb_names none vid pid = (none, none)
hwdb_names (some query) none pid = (none, none)
hwdb_names (some query) (some vid) none = (none, none)
hwdb_names (some query) (some vid) (some pid) =
    let modalias = "usb:v" <> (to_uppercase vid <> ("p" <> to_uppercase pid)) in
    (query modalias "ID_VENDOR_FROM_DATABASE", query modalias "ID_MODEL_FROM_DATABASE")

abbrev pub zip_with {ℓ} : {A B C : Type ℓ} → (A → B → C) → Option A → Option B → Option C
zip_with g none b = none
zip_with g (some a) none = none
zip_with g (some a) (some b) = some (g a b)

abbrev triple_text : UsbInterface → String
triple_text i =
    hexadecimal 2 (unwrap_or i.class 0)
    <> (hexadecimal 2 (unwrap_or i.subclass 0) <> hexadecimal 2 (unwrap_or i.protocol 0))

unfoldable pub interfaces_text : List UsbInterface → Option String
interfaces_text interfaces =
    if is_empty interfaces
    then none
    else some (":" <> (join ":" (map triple_text interfaces) <> ":"))

unfoldable pub identity :
    Option String
    → Option String
    → Option ℕ
    → Option ℕ
    → Option ℕ
    → Option ℕ
    → Option UsbDescriptorIdentity
identity vid pid bcd class subclass protocol = and_then vid λ v. and_then pid λ p. and_then bcd λ b.
    and_then class λ c. and_then subclass λ s. and_then protocol λ q. some (record {
      vid = v;
      pid = p;
      bcd_device = b;
      device_class = c;
      device_subclass = s;
      device_protocol = q;
    })
