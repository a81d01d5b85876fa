-- ===== src/Module.antt =====
-- api/daq_api.h: the table of function pointers that a module gives to the library. `C` is what the
-- module's `void *handle` points to and `U` the state of the user's callbacks; a pointer that may be
-- NULL is an `Option`. A function returns the context that it leaves; what it hands out through a
-- pointer argument is part of its result.
use libdaq.Prelude.{ℕ, zero, suc, ℤ, CString, List, [], ◌∷◌, take, Option, ◌≡◌, refl, ap}
use libdaq.Common.{Config, PktHdr, Stats}

-- DAQ_Analysis_Func_t: the state that the application has then, its verdict, and the bytes that it
-- writes over the packet, in place and from its start on.
abbrev pub Callback : Type 0 → Type 0
Callback U = U → PktHdr → List ℕ → U × ℕ × List ℕ

-- A buffer after bytes were written over it.
unfoldable pub in_place : List ℕ → List ℕ → List ℕ
in_place [] left = []
in_place (b ∷ buf) [] = b ∷ buf
in_place (b ∷ buf) (x ∷ left) = x ∷ in_place buf left

in_place_self : (buf : List ℕ) → in_place buf buf ≡ buf
unfolding in_place
in_place_self [] = refl
in_place_self (b ∷ buf) = ap (λ bs. b ∷ bs) (in_place_self buf)

-- To write the same bytes again changes nothing.
pub in_place_twice : (buf left : List ℕ) → in_place buf (in_place buf left) ≡ in_place buf left
unfolding in_place
in_place_twice [] left = refl
in_place_twice (b ∷ buf) [] = ap (λ bs. b ∷ bs) (in_place_self buf)
in_place_twice (b ∷ buf) (x ∷ left) = ap (λ bs. x ∷ bs) (in_place_twice buf left)

-- The start of a buffer that was written over.
pub take-in_place :
    (n : ℕ) (buf left : List ℕ) → take n (in_place buf left) ≡ in_place (take n buf) left
unfolding in_place
take-in_place zero [] left = refl
take-in_place zero (b ∷ buf) left = refl
take-in_place (suc n) [] left = refl
take-in_place (suc n) (b ∷ buf) [] = refl
take-in_place (suc n) (b ∷ buf) (x ∷ left) = ap (λ bs. x ∷ bs) (take-in_place n buf left)

-- A metapacket is its type and its data.
abbrev pub MetaCallback : Type 0 → Type 0
MetaCallback U = U → ℤ → List ℕ → U × ℤ

-- What `initialize` hands out: its code, the handle if it stored one, and the text in `errbuf`.
pub record InitReply (C : Type 0) : Type 0 where
  pub code : ℤ
  pub handle : Option C
  pub errbuf : CString

-- DAQ_ModFlow_t, DAQ_QueryFlow_t: a type, a length and data.
pub record FlowArg : Type 0 where
  pub type : ℤ
  pub length : ℕ
  pub value : List ℕ

-- DAQ_DP_key_t; an address is its bytes.
pub record DpKey : Type 0 where
  pub src_af : ℕ
  pub dst_af : ℕ
  pub sa : List ℕ
  pub da : List ℕ
  pub protocol : ℕ
  pub src_port : ℕ
  pub dst_port : ℕ
  pub address_space_id : ℕ
  pub tunnel_type : ℕ
  pub vlan_id : ℕ
  pub vlan_cnots : ℕ

-- DAQ_Data_Channel_Params_t, less the two fields that it keeps for the future.
pub record ChannelParams : Type 0 where
  pub flags : ℕ
  pub timeout_ms : ℕ

-- `struct _daq_module`. The configurations that the HUP functions pass on are opaque numbers.
pub record Module (C U : Type 0) : Type 0 where
  pub api_version : ℕ
  pub module_version : ℕ
  pub name : CString
  pub type : ℕ
  pub initialize : Option (Config → InitReply C)
  pub set_filter : Option (C → CString → C × ℤ)
  pub start : Option (C → C × ℤ)
  pub acquire : Option (C → U → ℤ → Option (Callback U) → Option (MetaCallback U) → C × U × ℤ)
  pub inject : Option (C → PktHdr → List ℕ → ℕ → ℤ → C × ℤ)
  pub breakloop : Option (C → C × ℤ)
  pub stop : Option (C → C × ℤ)
  pub shutdown : Option (C → Unit {0})
  pub check_status : Option (C → ℕ)
  pub get_stats : Option (C → Stats → C × Stats × ℤ)
  pub reset_stats : Option (C → C)
  pub get_snaplen : Option (C → ℤ)
  pub get_capabilities : Option (C → ℕ)
  pub get_datalink_type : Option (C → ℤ)
  pub get_errbuf : Option (C → CString)
  pub set_errbuf : Option (C → CString → C)
  pub get_device_index : Option (C → CString → ℤ)
  pub modify_flow : Option (Option C → PktHdr → FlowArg → Option C × ℤ)
  pub hup_prep : Option (C → C × Option ℕ × ℤ)
  pub hup_apply : Option (C → Option ℕ → C × Option ℕ × ℤ)
  pub hup_post : Option (C → Option ℕ → C × ℤ)
  pub dp_add_dc : Option (C → PktHdr → DpKey → List ℕ → Option ChannelParams → C × ℤ)
  pub query_flow : Option (Option C → PktHdr → FlowArg → Option C × ℤ)

-- DAQ_API_VERSION.
abbrev pub daq_api_version : ℕ
daq_api_version = 0x0001_0007
