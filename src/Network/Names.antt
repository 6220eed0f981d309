-- ===== src/Network/Names.antt =====
-- The names of the networks and their explorers (vault-indexer/src/indexer/network.rs).
use Prim.Native.String.{String}
use Prim.Native.String.{◌++◌ as append}
use text.Mathlib.Text.{◌==◌}
use mutinynet_indexer.Common.{◌≡◌, refl, Option, none, some, if◌then◌else◌}
use mutinynet_indexer.Common.Text.{Lowercase}
use mutinynet_indexer.Network.{Network, bitcoin, testnet, testnet4, signet, mutinynet, regtest}

unfoldable pub to_str : Network → String
to_str bitcoin = "bitcoin"
to_str testnet = "testnet"
to_str testnet4 = "testnet4"
to_str signet = "signet"
to_str mutinynet = "mutinynet"
to_str regtest = "regtest"

-- The match of `from_str`, on a text in lower case.
unfoldable pub from_lowercase : String → Option Network
from_lowercase value =
    if value == "bitcoin"
    then some bitcoin
    else if value == "testnet"
    then some testnet
    else if value == "testnet4"
    then some testnet4
    else if value == "signet"
    then some signet
    else if value == "mutinynet"
    then some mutinynet
    else if value == "regtest"
    then some regtest
    else none

unfoldable pub from_str : ⦃l : Lowercase⦄ → String → Option Network
unfolding from_lowercase
from_str ⦃l⦄ value = from_lowercase (l.to_lowercase value)

unfoldable pub explorer_base_url : Network → String
explorer_base_url bitcoin = "https://mempool.space/tx"
explorer_base_url testnet = "https://mempool.space/testnet/tx"
explorer_base_url testnet4 = "https://mempool.space/testnet4/tx"
explorer_base_url signet = "https://mempool.space/signet/tx"
explorer_base_url regtest = "http://127.0.0.1:4080/tx"
explorer_base_url mutinynet = "https://mutinynet.com/tx"

-- The name of a network is read back as that network.
pub from_str-to_str : ⦃l : Lowercase⦄ (network : Network) → from_str (to_str network) ≡ some network
unfolding from_str to_str
from_str-to_str ⦃l⦄ bitcoin = rw (l.to_lowercase_plain "bitcoin" refl) refl
from_str-to_str ⦃l⦄ testnet = rw (l.to_lowercase_plain "testnet" refl) refl
from_str-to_str ⦃l⦄ testnet4 = rw (l.to_lowercase_plain "testnet4" refl) refl
from_str-to_str ⦃l⦄ signet = rw (l.to_lowercase_plain "signet" refl) refl
from_str-to_str ⦃l⦄ mutinynet = rw (l.to_lowercase_plain "mutinynet" refl) refl
from_str-to_str ⦃l⦄ regtest = rw (l.to_lowercase_plain "regtest" refl) refl

-- `format!("{}/{}", …)`, with the text of a transaction id.
unfoldable pub explorer_url : Network → String → String
unfolding explorer_base_url
explorer_url network txid = append (append (explorer_base_url network) "/") txid
