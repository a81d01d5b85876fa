-- ===== src/Nfq/Ownership.antt =====
-- os-daq-modules/daq_nfq.c: `nfq_daq_shutdown` gives back what an instance holds.
use libdaq.Prelude.{refl, arith}
use libdaq.Netfilter.{Resource, there, times_taken, times_given}
use libdaq.Netfilter.Ownership.{Held, GivesBack, giving}
use libdaq.Nfq.{NfqImpl, nfq_daq_shutdown}

module _ {F U : Type 0} where
  abbrev pub held : NfqImpl F U → Held
  held impl = record {
    buffer = there impl.buf;
    library_handle = impl.nf_handle;
    queue = impl.nf_queue;
    link = impl.link;
    net = impl.net;
  }

  pub shutdown-GivesBack : (impl : NfqImpl F U) → GivesBack (held impl) (nfq_daq_shutdown impl)
  unfolding nfq_daq_shutdown times_given times_taken
  shutdown-GivesBack impl Resource.context other = (simp giving (omega arith), simp giving refl)
  shutdown-GivesBack impl Resource.device_text other = absurd (other refl)
  shutdown-GivesBack impl Resource.buffer other = (simp giving (omega arith), simp giving refl)
  shutdown-GivesBack impl Resource.library_handle other =
      (simp giving (omega arith), simp giving refl)
  shutdown-GivesBack impl Resource.queue other = (simp giving (omega arith), simp giving refl)
  shutdown-GivesBack impl Resource.link other = (simp giving (omega arith), simp giving refl)
  shutdown-GivesBack impl Resource.net other = (simp giving (omega arith), simp giving refl)
