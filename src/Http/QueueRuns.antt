-- ===== src/Http/QueueRuns.antt =====
-- Runs of the model of Netlib/HttpServiceImplementer.cpp, OnReceived and ProcessMsg.
use iocp_netlib.Base.{ℕ, ◌≡◌, refl, arith, some, List, [], ◌∷◌, ◌==◌, if◌then◌else◌, replicate}
use iocp_netlib.FixedPool.{FixedMemoryPool, alloc_raw}
use iocp_netlib.PackageQueue.{PackageQueue, alloc_write_packet}
use iocp_netlib.Http.Queue.{HttpProtocolHeader, on_received, fill_packet, process_msg}
use iocp_netlib.Http.Handover.{carried, on_received-process_msg}

-- Two elements of 48 bytes are free, with room for 20 bytes of data.
abbrev pool : FixedMemoryPool
pool = record { pool = 1000; free_list = 1000; elem_size = 48; capacity = 2; free_count = 2 }

abbrev queue : PackageQueue
queue = record {
  queue = [];
  sem = some 0;
  pool = some pool;
  mem = record { word = λ a. if a == 1000 then 1048 else 0; byte = λ a. a };
}

abbrev client : HttpProtocolHeader
client = record { socket_id = 70000; remote_port = 8080; remote_ip = 0xC0A80001 }

-- "GET" fits.
on_received-process_msg_example :
    ((on_received 170 187 client (71 ∷ 69 ∷ 84 ∷ []) queue).0 ≡ 0)
    × ((process_msg (on_received 170 187 client (71 ∷ 69 ∷ 84 ∷ []) queue).1).0
        ≡ some (client, 71 ∷ 69 ∷ 84 ∷ []))
on_received-process_msg_example =
    on_received-process_msg 170 187 client (71 ∷ 69 ∷ 84 ∷ []) queue pool refl refl refl
      (λ e. omega arith) (omega arith) (omega arith) (omega arith)
      (omega arith, omega arith, omega arith)

-- 21 bytes do not.
abbrev long : List ℕ
long = replicate 21 65

nothing_carried : carried pool long ≡ []
nothing_carried = refl

-- Without a packet the worker closes the client.
refused :
    (on_received 0 0 client long (record queue { pool = some (record pool { free_list = 0 }) })).0
    ≡ 0xFFFFFFFF
unfolding on_received fill_packet alloc_write_packet alloc_raw
refused = refl
