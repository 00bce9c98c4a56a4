-- ===== src/Lib.antt =====
-- kunlun is a distributed object store: proxy nodes (src/proxynode) know which storage node holds
-- which virtual node of the name space, storage nodes (src/storagenode) hold the files, and both
-- stand on src/common. This library models the proxy's core and what a storage node does with
-- messages, files and heart beats in functions and proves what they do.
--
-- How the parts interact. CStreamMsgPacketizer cuts the bytes of a socket into packages and puts
-- them into a queue; CProxyMsgParser takes a package and handles it. A request for an address
-- hashes the path to a vnode (CNameSpaceHash, on MD5), picks a replica of it (vnode_info) and
-- answers with the address of its device. A joining device gets replicas from CVnodeBalancer and
-- is put into CDeviceContainer. A storage node then reports its vnodes again and again
-- (CThreadBeatHeart); the master compares the report with what it knows, and its answer says which
-- vnodes the node has to keep, drop or send to another node. For the latter CThreadSyncData tells
-- the other node the files of the vnode with their hash codes (CTbHashCode, a table in SQLite);
-- CStorageMsgParser there answers which of them it wants, and is then sent them one by one. Clients upload
-- objects to a storage node and download them; an upload is sent on to the second nodes.
-- What a socket gives to a file goes through sendfile, which Linux refuses for a socket.
--
-- Files and what they model:
--   Prelude      shared tests, lists and words; Prelude/Run, the result of a call that may do what
--                C++ leaves undefined; Prelude/Int, values of int; Prelude/Text, texts as bytes
--   Serializer   CSERIALIZER of src/common/common_protocol.h: int2buff, long2buff, buff2int32 and
--                buff2int64
--   Protocol     the bodies of src/proxynode/proxy_protocol.h that storage nodes and proxies exchange
--   Queue        CMsgQueue and CMsgQueueArr of src/common/msg_queue.h and msg_queue.cpp on CEvent of
--                event.cpp, as the steps of any number of threads; push and pop lock their own mutexes
--   Conf         CBaseConfParser of src/common/base_conf_parser.cpp; in Conf/Settings the settings of
--                a server and, from src/proxynode/proxy_conf_parser.cpp, of a proxy
--   Hex          kl_bin2hex and kl_hex2bin of src/common/common_types.h
--   Md5          the class MD5 of src/common/hash.cpp: transform, update, final, digest, reset,
--                and the update with a file
--   NameSpace    CNameSpaceHash of src/common/hash.cpp: bkdr_hash, str_hash, get_vnode_id
--   Packetizer   CStreamMsgPacketizer::work of src/common/stream_msg_packetizer.cpp; Sending and
--                Pieces relate it to the stream of messages, Stuck has the streams that it does
--                not survive
--   Node         device_info, replica_info and vnode_info of src/proxynode/node_info.h and
--                node_info.cpp; Read, Reads and Write are about the two round robins, Zones about
--                the zones of replicas
--   Proxy        the global state of src/proxynode/proxy_global.h with CDeviceContainer and
--                CVnodeContainer of node_container.cpp
--   Balancer     master_do_copy_vnode and slaver_do_device_join of src/proxynode/vnode_balancer.cpp
--   Mover        master_do_move_vnode of the same file; Termination shows that its loops end
--   Handler      messages and response headers of src/proxynode/proxy_msg_parser.cpp; in
--                Handler/Address msg_get_vnode_addr_handle, in Handler/Join
--                msg_device_join_handle, in Handler/SyncDown msg_sync_down_handle, in
--                Handler/Merge master_do_device_merge, in Handler/Report slaver_do_device_merge
--                and msg_device_report_handle, in Handler/Parser parse_msg
--   Storage      CStorageVnodeContainer of src/storagenode/vnode_info.cpp; in Storage/BeatHeart
--                CThreadBeatHeart of thread_beat_heart.cpp, of which Wire and Answered relate the
--                bodies to the handlers of the proxy; Storage/Files, CFileWriterStream and
--                CFileReaderStream of src/common/file_writer_stream.cpp and
--                file_reader_stream.cpp; Storage/HashCode, CTbHashCode of
--                src/sqlite/tb_hashcode.cpp. From storage_msg_parser.cpp, Storage/Objects has
--                msg_upload_file_handle, msg_ctrl_stream_handle and msg_download_file_handle,
--                Storage/Copying msg_file_sync_handle with sync_vnode_file of
--                thread_sync_data.cpp, Storage/Checking msg_file_check_handle and
--                do_file_hashcode_check with its two cases, Storage/Comparing the other side of
--                it, check_and_sync_vnode, do_sync_event and, in Running, run of
--                thread_sync_data.cpp,
--                Storage/Parser parse_msg
--   The tests and the theorems at concrete inputs stand in the files called Tests.
--
-- State and operations. Devices are a heap from addresses to records; a container slot is an
-- address or NULL; a pointer to a replica is its place in the list of its vnode. An operation is a
-- function of the same name from the state to a Run: `ret` with the new state and the result code,
-- or `fault` with the kind of undefined behaviour. A disk is a map from paths to the bytes of regular
-- files, and one from paths to databases; strings are lists of bytes without their zero, and
-- snprintf cuts them to their arrays. Codes and ints are bit patterns. Loops that run over a list
-- or a counter are recursions on it.
--
-- Bounds and fuel. The loop over the received bytes has as many rounds as bytes, and a round that
-- goes on without taking a byte counts as endless, since it is taken again in the same state; the
-- random choice of move_loop has the length of the list left, of which every round erases an
-- entry; a configuration file has at most as many lines as characters; the block loop of MD5 has
-- the length of the input, and its loop over a file the length of the file; the transfer loops of the
-- streams run over the results of sendfile, and a call without a result counts as endless. Bodies
-- and paths are shorter than 2 ^ 31 bytes, as the source assumes. A shift by 64 bits or more is a
-- fault, and so is a use of a std::queue by two threads at once.
--
-- Not modelled: sockets, files, logs, locks and threads (system calls; locks and allocations
-- succeed), the server loops on them, the configuration of storage nodes, the tables of accounts,
-- containers and deleted files, which no handler uses, the client, and of the proxy the container
-- operations delete_node, merge_node, get_node by zone and merge_vnode. SQLite is a parameter, an
-- engine that runs statements on databases; theorems about stored rows ask of it what SQL says of
-- these statements. rand(), the clock, the results of streams, of sendfile, fstat and getpeeraddr,
-- the memory of a new local or block, the outcome of making a directory or opening a database, and
-- the address of a new object are arguments.
pub mod Prelude
pub mod Serializer
pub mod Queue
pub mod Conf
pub mod Protocol
pub mod Storage
pub mod Hex
pub mod Node
pub mod Proxy
pub mod Balancer
pub mod Md5
pub mod NameSpace
pub mod Handler
pub mod Packetizer
pub mod Mover
