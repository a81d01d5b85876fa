-- ===== src/Ipq/Ownership.antt =====
-- os-daq-modules/daq_ipq.c: `ipq_daq_shutdown` gives back what an instance holds.
use libdaq.Prelude.{refl, arith, false}
use libdaq.Netfilter.{Resource, there, times_taken, times_given}
use libdaq.Netfilter.Ownership.{Held, GivesBack, giving}
use libdaq.Ipq.{IpqImpl, ipq_daq_shutdown}

module _ {F : Type 0} where
  abbrev pub ipq_held : IpqImpl F → Held
  ipq_held impl = record {
    buffer = there impl.buf;
    library_handle = impl.ipqh;
    queue = false;
    link = impl.link;
    net = impl.net;
  }

  pub ipq_shutdown-GivesBack :
      (impl : IpqImpl F) → GivesBack (ipq_held impl) (ipq_daq_shutdown impl)
  unfolding ipq_daq_shutdown times_given times_taken
  ipq_shutdown-GivesBack impl Resource.context other = (simp giving (omega arith), simp giving refl)
  ipq_shutdown-GivesBack impl Resource.device_text other = absurd (other refl)
  ipq_shutdown-GivesBack impl Resource.buffer other = (simp giving (omega arith), simp giving refl)
  ipq_shutdown-GivesBack impl Resource.library_handle other =
      (simp giving (omega arith), simp giving refl)
  ipq_shutdown-GivesBack impl Resource.queue other = (simp giving (omega arith), simp giving refl)
  ipq_shutdown-GivesBack impl Resource.link other = (simp giving (omega arith), simp giving refl)
  ipq_shutdown-GivesBack impl Resource.net other = (simp giving (omega arith), simp giving refl)
