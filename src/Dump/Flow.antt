-- ===== src/Dump/Flow.antt =====
-- os-daq-modules/daq_dump.c: `dump_daq_modify_flow` and `dump_daq_dp_add_dc`, which only print.
-- inet_ntop is an argument.
use libdaq.Prelude.{
  ℕ, suc, ℤ, pos, negsuc, CString, codes, List, ◌∷◌, ◌++◌, Option, none, some, ◌==◌, if◌then◌else◌,
}
use libdaq.Common.{PktHdr, daq_success}
use libdaq.Module.{FlowArg, DpKey, ChannelParams}
use libdaq.Dump.State.{Impl, entry_head, print}
use libdaq.Dump.Text.{dec, upper_hex, hexdump}

-- `%d`.
abbrev pub dec_int : ℤ → CString
dec_int (pos n) = dec n
dec_int (negsuc n) = b'-' ∷ dec (suc n)

-- AF_INET and AF_INET6 of Linux.
abbrev pub af_inet : ℕ
af_inet = 2

abbrev pub af_inet6 : ℕ
af_inet6 = 10

abbrev pub param_flags : Option ChannelParams → ℕ
param_flags none = 0
param_flags (some p) = p.flags

abbrev pub param_timeout : Option ChannelParams → ℕ
param_timeout none = 0
param_timeout (some p) = p.timeout_ms

-- The text of one change to a flow.
unfoldable pub modify_entry : PktHdr → FlowArg → CString
modify_entry hdr modify =
    entry_head (codes "MF") hdr
    ++ (codes " "
        ++ (dec_int modify.type
            ++ (codes " "
                ++ (dec modify.length
                    ++ (codes " \n" ++ hexdump modify.value modify.length (some (codes "    ")))))))

module _ {C D : Type 0} where
  -- A code, with the text added to the file that is open.
  unfoldable pub printed : CString → Impl C D → ℤ × Impl C D
  printed text impl = (
    daq_success,
    record impl { out = record impl.out { text_out = print text impl.out.text_out } },
  )

  -- `dump_daq_modify_flow`.
  unfoldable pub dump_daq_modify_flow : Impl C D → PktHdr → FlowArg → ℤ × Impl C D
  unfolding printed modify_entry
  dump_daq_modify_flow impl hdr modify = printed (modify_entry hdr modify) impl

-- The second line.
abbrev pub channel_numbers : DpKey → Option ChannelParams → CString
channel_numbers key params =
    codes "    "
    ++ (dec key.address_space_id
        ++ (codes " "
            ++ (dec key.tunnel_type
                ++ (codes " "
                    ++ (dec key.vlan_id
                        ++ (codes " "
                            ++ (dec key.vlan_cnots
                                ++ (codes " 0x"
                                    ++ (upper_hex (param_flags params)
                                        ++ (codes " "
                                            ++ (dec (param_timeout params) ++ codes "\n")))))))))))

module _ (inet_ntop : ℕ → List ℕ → CString) where
  unfoldable pub address : ℕ → List ℕ → CString
  address af a = if af == af_inet then inet_ntop af_inet a else inet_ntop af_inet6 a

  -- `%s:%hu`.
  unfoldable pub endpoint : ℕ → List ℕ → ℕ → CString
  unfolding address
  endpoint af a port = address af a ++ (codes ":" ++ dec port)

  -- The text of one data channel.
  unfoldable pub channel_entry : PktHdr → DpKey → Option ChannelParams → CString
  unfolding endpoint
  channel_entry hdr key params =
      entry_head (codes "DP") hdr
      ++ (codes "\n    "
          ++ (endpoint key.src_af key.sa key.src_port
              ++ (codes " -> "
                  ++ (endpoint key.dst_af key.da key.dst_port
                      ++ (codes " ("
                          ++ (dec key.protocol ++ (codes ")\n" ++ channel_numbers key params)))))))

  -- `dump_daq_dp_add_dc`.
  unfoldable pub dump_daq_dp_add_dc :
      {C D : Type 0} → Impl C D → PktHdr → DpKey → Option ChannelParams → ℤ × Impl C D
  unfolding printed channel_entry
  dump_daq_dp_add_dc impl hdr key params = printed (channel_entry hdr key params) impl
