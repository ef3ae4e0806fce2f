-- ===== src/Lib.antt =====
-- The CoAP server stack in coap/server/lobaro-coap: messages and their options, the typed
-- options, endpoints, sockets, interactions, resources and the state machine that drives them;
-- and the queue and the requests of the client in coap/client.
--
-- A datagram is parsed by CoAP_ParseMessageFromDatagram into a message that owns a linked list of
-- options (parse_OptionsFromRaw); a message is built into a datagram by CoAP_BuildDatagram
-- (pack_OptionsFromList) in a buffer whose size CoAP_GetRawSizeOfMessage gives beforehand. The
-- typed options are written into and read from a message's list of options. A received packet
-- goes to CoAP_onNewPacketHandler, which finds the resource and starts an interaction or hands
-- the message to an existing one; CoAP_doWork is called again and again and drives the
-- interaction at the head of the list: it calls the resource's handler, sends, waits, sends again
-- or gives up.
--
-- Base, with Base/Tests, Base/Lists and Base/Bytes: Boolean tests, lists over native numbers, and
--   memory that is read through a pointer.
-- Heap: coap_mem_get and coap_mem_release of coap_mem.c. The allocator's algorithm (BGET) is
--   another project's, so that it is a parameter: any verdict on each request. A theorem that
--   needs memory says that the requests are met.
-- CoapResult: the result codes of coap.h.
-- Options: coap_options.c. CoAP_AppendOptionToList is append_option_to_list (Options/Insert),
--   pack_OptionsFromList and CoAP_NeededMem4PackOptions are in Options/Pack (Options/Size),
--   parse_OptionsFromRaw is in Options/Parse (Options/Loop, Options/PackedOption,
--   Options/RoundTrip, Options/Heads, Options/Bounds, Options/Validity); CoAP_OptionsAreEqual and
--   the search for critical options are in Options/Equal.
-- Message: coap_message.c; Message/Create is the creation of messages.
--   CoAP_ParseMessageFromDatagram is in Message/Parse, CoAP_BuildDatagram and
--   CoAP_GetRawSizeOfMessage are in Message/Build, where the offset wraps around; Message/Size, Message/Token, Message/Sendable,
--   Message/RoundTrip, Message/Refused, Message/Bounds, Message/Accounting and Message/Overread
--   hold their proofs.
-- Endpoint: interface/_common/coap_if_Endpoint.c.
-- OptionTypes: option-types/. Block and BlockCodec are coap_option_blockwise.c, Observe is
--   coap_option_observe.c, ETag and ContentFormat are coap_option_ETag.c and coap_option_cf.c;
--   Values and First hold proofs. UriEqual is the comparison of coap_option_uri.c, Uri the
--   splitting of uri strings (UriWords, UriSplit, UriParts). SetPayload is CoAP_SetPayload
--   (Placed, Blockwise, FirstBlock, NoBlock, Transfer); BlockRemoval has the proof on the removal
--   of block options.
-- Interaction: the list of interactions of coap_interaction.c; Interaction/Search has its proofs.
-- Resource: coap_resource.c and the observers of option-types/coap_option_observe.c;
--   Resource/Create is CoAP_CreateResource, Resource/Find its proof. Resource/Saved is
--   CoAP_NVsaveObservers and CoAP_NVloadObservers; the modules below it hold the proofs.
-- Stack: the state of the whole stack, and CoAP_SendMsg with the short messages of
--   coap_message.c.
-- Work: SendResp, SendReq, CheckRespStatus and CheckReqStatus of coap_main.c; Work/Client,
--   Work/Notify and Work/Server are the three roles of CoAP_doWork, Work/Observation is
--   CoAP_HandleObservationInReq, Work/DoWork is CoAP_doWork. Their proofs are in Work/WellFormed,
--   Work/Stored, Work/Sent, Work/Keeps, Work/Observed, Work/Serving, Work/ClientStep,
--   Work/ServerStep, Work/NotifyStep, Work/Sound, Work/OutOfMemory, Work/Unsent and Work/GiveUp.
-- Receive: Receive/Start is the start of client and server interactions of coap_interaction.c,
--   Receive/Packet is CoAP_onNewPacketHandler; Receive/Duplicate has proofs on duplicates,
--   Receive/Started, Receive/Answers and Receive/Sound on what is kept well-formed.
-- Api: what the application calls. Api/Get is CoAP_StartNewGetRequest, Api/Notify is
--   CoAP_StartNotifyInteractions and CoAP_NotifyResourceObservers (NotifySound, Marked, Pending);
--   Api/Reach puts all operations together in a step relation.
-- Sockets: the table of interface/_common/coap_if_Socket.c, and the sockets of
--   interface/esp8266/lobaro-coap_esp8266.c; Sockets/Created is a proof on their creation.
-- Client: the client in coap/client, which shares nothing with the server. Client/Queue is
--   Queue.cpp (Due has its proofs), Client/Hash is Hash.cpp, Client/Engine is CoapClient.cpp with
--   the sending of CoapRequest.cpp (Unknown has a proof on it). Its packets are numbers: the
--   packet class is another project's.
-- Tests: data, runs and the theorems at concrete inputs.
--
-- A linked list is a list of its nodes, in their order, and a pointer to a node is its position.
-- Each function that allocates or releases takes a heap and returns one, whose `live` counts the
-- blocks that are held. The integers are natural numbers with the wrap-around of uint16_t,
-- uint32_t and uint64_t written out. The parser's loop runs on as much fuel as there are bytes,
-- and the comparison of uris on as much as there are options; that this is enough is proved.
--
-- The loading of saved observers runs on fuel, since the records in the storage may be any; its
-- result is proved for the record that the saving writes. The layout of a NetEp_t in memory is a
-- parameter.
--
-- For the stack, the network driver, the clock and the handlers of the application are
-- parameters: the driver says of each packet whether it takes it, and a handler answers each call
-- as it likes. The clock stands still within one operation. A step has no result where the source
-- reads through a NULL pointer, also where a log line does. RetrieveSocket2 finds for an interface
-- a socket, with or without a function to send with, or NULL, which CoAP_SendMsg reads through; the
-- theorems on steps and datagrams ask for a socket of the interface that they send on. A handler
-- may be given a NULL pointer for the response.
--
-- Not modelled: the printing functions and the list of links; the set-up of the wireless network,
-- which is calls of the vendor's SDK; the application's resource handlers; the packet class, name
-- resolution and building of packets of the client.
pub mod Base
pub mod Heap
pub mod CoapResult
pub mod Options
pub mod Message
pub mod Endpoint
pub mod OptionTypes
pub mod Interaction
pub mod Resource
pub mod Stack
pub mod Work
pub mod Receive
pub mod Api
pub mod Sockets
pub mod Client
mod Tests
