-- ===== src/Scenarios/Samples.antt =====
-- The data of the scenarios: a payment of 1500 yen in JPYC on Polygon.
use sucopay.Prelude.{ℕ, ◌+◌, [], ◌∷◌, some, replicate, List}
use sucopay.Text.{Text, codes}
use sucopay.Payment.Asset.{Asset}
use sucopay.Payment.Money.{Money, zero_money}
use sucopay.Payment.Status.{created, awaiting_payment, succeeded}
use sucopay.Payment.Aggregate.{Payment, Request, Idempotency}
use sucopay.Payment.AttemptStatus.{issued}
use sucopay.Payment.Attempt.{Attempt, eip3009}
use sucopay.Payment.RefundStatus
use sucopay.Payment.Refund.{Refund, RefundRequest}
use sucopay.Payment.Evidence.{Transfer}

abbrev pub jpyc : Asset
jpyc = record {
  network = codes "polygon";
  reference = codes "0xE7C3";
  symbol = codes "JPYC";
  decimals = 18;
}

abbrev pub yen : ℕ → Money
yen n = record { amount = some n; asset = jpyc }

abbrev pub sixteen : List ℕ
sixteen = replicate 16 0xab

abbrev pub thirty_two : List ℕ
thirty_two = replicate 32 0x5c

-- Nanoseconds: the moment that it is opened at, and a quarter of an hour later.
abbrev pub noon : ℕ
noon = 64_000_000_000_000_000_000

abbrev pub quarter_past : ℕ
quarter_past = 64_000_000_900_000_000_000

abbrev pub no_key : Idempotency
no_key = record { key = []; body_hash = [] }

abbrev pub request : Request
request = record {
  amount = yen 1500;
  destination = codes "0xShop";
  metadata = (codes "order", codes "17") ∷ (codes "cart", codes "3") ∷ [];
  expires_at = quarter_past;
  return_url = [];
  checkout = record { hash = []; key_id = [] };
  idempotency = no_key;
}

abbrev pub sample_id : Text
sample_id = replicate 32 b'a'

abbrev pub fresh : Payment
fresh = record {
  id = sample_id;
  amount = yen 1500;
  received = zero_money;
  destination = codes "0xShop";
  status = created;
  metadata = (codes "order", codes "17") ∷ (codes "cart", codes "3") ∷ [];
  created_at = noon;
  expires_at = quarter_past;
  return_url = [];
  checkout = record { hash = []; key_id = [] };
  idempotency = no_key;
  closed_at = 0;
}

abbrev pub payable : Payment
payable = record fresh { status = awaiting_payment }

abbrev pub paid : Payment
paid = record fresh { received = yen 1500; status = succeeded }

abbrev pub attempt : Attempt
attempt = record {
  id = replicate 32 b'b';
  payment_id = sample_id;
  scheme = eip3009;
  network = codes "polygon";
  key = replicate 64 b'c';
  authorizer = [];
  valid_before = quarter_past;
  status = issued;
  created_at = noon;
}

abbrev pub transfer : Transfer
transfer = record {
  scheme = eip3009;
  asset = codes "0xE7C3";
  key = replicate 64 b'c';
  authorizer = codes "0xPayer";
  from = codes "0xPayer";
  to = codes "0xShop";
  value = codes "1600";
  tx = codes "0xtx";
  position = 0;
  block_height = 7;
  block_hash = codes "0xblock";
  block_time = noon + 60_000_000_000;
}

abbrev pub refund_request : RefundRequest
refund_request = record {
  amount = yen 500;
  destination = codes "0xPayer";
  token = record { hash = codes "h"; key_id = codes "k" };
  idempotency = no_key;
}

abbrev pub refund : Refund
refund = record {
  id = replicate 32 b'd';
  payment_id = sample_id;
  amount = yen 500;
  destination = codes "0xPayer";
  scheme = eip3009;
  network = codes "polygon";
  key = replicate 64 b'e';
  expires_at = quarter_past;
  status = RefundStatus.created;
  token = record { hash = codes "h"; key_id = codes "k" };
  idempotency = no_key;
  created_at = noon;
  closed_at = 0;
}

abbrev pub refund_transfer : Transfer
refund_transfer = record transfer {
  key = replicate 64 b'e';
  from = codes "0xShop";
  to = codes "0xPayer";
  value = codes "500";
}
